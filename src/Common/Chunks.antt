-- ===== src/Common/Chunks.antt =====
-- The chunks of `chunk_list`.
use mathlib.Core.List.{append-nil, append_assoc}
use azure_iot_ops_cli_extens.Base.{
  ℕ, ◌*◌, ◌≤◌, ◌≡◌, sym, ap, ◌∙◌, String, ◌||◌, List, [], ◌∷◌, ◌++◌, arith, if◌then◌else◌, ltb,
  length, flatten, All, All-append, Bool-cases, ◌⊎◌, inl, inr, lower, ◌==◌, string_eq,
}
use azure_iot_ops_cli_extens.Common.{chunk_loop, chunk_list}

module _ {A : Type 0} (size : List A → ℕ) where
  flatten-snoc : (bs : List (List A)) (b : List A) → flatten (bs ++ b ∷ []) ≡ flatten bs ++ b
  flatten-snoc [] b = append-nil b
  flatten-snoc (c ∷ bs) b = rw (flatten-snoc bs b, append_assoc)

  chunk_loop-flatten :
      (items : List A) (n limit : ℕ) (current : List A) (result : List (List A))
      → flatten (chunk_loop size items n limit current result)
        ≡ flatten result ++ (current ++ items)
  unfolding chunk_loop
  chunk_loop-flatten [] n limit [] result = sym (append-nil (flatten result))
  chunk_loop-flatten [] n limit (c ∷ cs) result =
      flatten-snoc result (c ∷ cs) ∙ ap (λ x. flatten result ++ x) (sym (append-nil (c ∷ cs)))
  chunk_loop-flatten (item ∷ items) n limit current result =
      elim (Bool-cases (
        ltb n (length (current ++ item ∷ []))
        || ltb (limit * 1024) (size (current ++ item ∷ [])))) [
          | inl full ↦
              rw (full, chunk_loop-flatten items n limit (item ∷ []) (result ++ current ∷ []))
                (rw (flatten-snoc, append_assoc))
          | inr fits ↦
              rw (fits, chunk_loop-flatten items n limit (current ++ item ∷ []) result)
                (rw append_assoc)
        ]

  -- The chunks of `chunk_list` one behind the other are the data.
  pub chunk_list-flatten :
      (items : List A) (chunk_len data_size : ℕ) (size_unit : String)
      → flatten (chunk_list size items chunk_len data_size size_unit) ≡ items
  unfolding chunk_list
  chunk_list-flatten items chunk_len data_size size_unit =
      chunk_loop-flatten items chunk_len _ [] []

  -- A chunk within both limits, or of one item.
  abbrev pub IsWithin : ℕ → ℕ → List A → Type 0
  IsWithin n limit chunk = (length chunk ≤ n × (size chunk ≤ limit * 1024)) ⊎ (length chunk ≤ 1)

  chunk_loop-IsWithin :
      (items : List A) (n limit : ℕ) (current : List A) (result : List (List A))
      → IsWithin n limit current
      → All (IsWithin n limit) result
      → All (IsWithin n limit) (chunk_loop size items n limit current result)
  unfolding chunk_loop
  chunk_loop-IsWithin [] n limit [] result h k = k
  chunk_loop-IsWithin [] n limit (c ∷ cs) result h k =
      All-append (IsWithin n limit) result ((c ∷ cs) ∷ []) k (h, tt)
  chunk_loop-IsWithin (item ∷ items) n limit current result h k =
      elim (Bool-cases (
        ltb n (length (current ++ item ∷ []))
        || ltb (limit * 1024) (size (current ++ item ∷ [])))) [
          | inl full ↦ rw full (
              chunk_loop-IsWithin items n limit (item ∷ []) (result ++ current ∷ [])
                (inr (omega arith)) (All-append (IsWithin n limit) result (current ∷ []) k (h, tt)))
          | inr fits ↦ rw fits (
              chunk_loop-IsWithin items n limit (current ++ item ∷ []) result
                (inl (ground arith, ground arith)) k)
        ]

  -- Every chunk keeps the limits on its length and its size, or has at most one item.
  pub chunk_list-IsWithin :
      (items : List A) (chunk_len data_size : ℕ) (size_unit : String)
      → All
          (IsWithin chunk_len (if lower size_unit == "mb" then data_size * 1024 else data_size))
          (chunk_list size items chunk_len data_size size_unit)
  unfolding chunk_list
  chunk_list-IsWithin items chunk_len data_size size_unit =
      chunk_loop-IsWithin items chunk_len _ [] [] (inr (omega arith)) tt
