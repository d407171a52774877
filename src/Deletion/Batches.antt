-- ===== src/Deletion/Batches.antt =====
-- The batches of `_batch_by_segment_depth`.
use mathlib.Core.List.{append-nil, append_assoc}
use azure_iot_ops_cli_extens.Base.{
  ℕ, ◌≤◌, ◌<◌, ◌≡◌, refl, sym, ap, ◌∙◌, Bool, true, false, ◌&&◌, List, [], ◌∷◌, ◌++◌, arith,
  if◌then◌else◌, flatten, nonempty, ltb, All, Bool-cases, inl, inr,
}
use azure_iot_ops_cli_extens.ResourceMap.{Resource, segments, sorted_resources}
use azure_iot_ops_cli_extens.ResourceMap.Order.{IsDeepestFirst, sorted_resources-IsDeepestFirst}
use azure_iot_ops_cli_extens.Deletion.Manager.{batch_loop, batch_by_segment_depth, maxsize}

flatten-snoc :
    (bs : List (List Resource)) (b : List Resource) → flatten (bs ++ b ∷ []) ≡ flatten bs ++ b
flatten-snoc [] b = append-nil b
flatten-snoc (c ∷ bs) b = rw (flatten-snoc bs b, append_assoc)

batch_loop-flatten :
    (rs : List Resource) (last : ℕ) (current : List Resource) (bs : List (List Resource))
    → flatten (batch_loop rs last current bs) ≡ flatten bs ++ (current ++ rs)
unfolding batch_loop
batch_loop-flatten [] last [] bs = sym (append-nil (flatten bs))
batch_loop-flatten [] last (c ∷ cs) bs =
    flatten-snoc bs (c ∷ cs) ∙ ap (λ x. flatten bs ++ x) (sym (append-nil (c ∷ cs)))
batch_loop-flatten (r ∷ rs) last current bs =
    elim (Bool-cases (ltb (segments r) last && nonempty current)) [
      | inl flush ↦
          rw (flush, batch_loop-flatten rs (segments r) (r ∷ []) (bs ++ current ∷ []))
            (rw (flatten-snoc, append_assoc))
      | inr on ↦
          rw (on, batch_loop-flatten rs (segments r) (current ++ r ∷ []) bs) (rw append_assoc)
    ]

-- The batches one behind the other are the sorted resources.
pub batch_by_segment_depth-flatten :
    (rs : List Resource) → flatten (batch_by_segment_depth rs) ≡ sorted_resources rs
unfolding batch_by_segment_depth
batch_by_segment_depth-flatten rs = batch_loop-flatten (sorted_resources rs) maxsize [] []

-- Layers: each batch is not empty and of one depth, and every later resource lies less deep.
abbrev pub IsLayered : List (List Resource) → Type 0
IsLayered [] = Unit
IsLayered (b ∷ bs) =
    (depth : ℕ) × (nonempty b ≡ true)
    × All (λ r. segments r ≡ depth) b
    × All (λ r. segments r < depth) (flatten bs)
    × IsLayered bs

and_false : (b : Bool) → (b && false) ≡ false
and_false b = ground arith

-- The batches that the loop still makes, without those it was given.
layers : List Resource → ℕ → List Resource → List (List Resource)
layers [] last current = if nonempty current then current ∷ [] else []
layers (r ∷ rs) last current =
    let flush = ltb (segments r) last && nonempty current in
    let rest = layers rs (segments r) (if flush then r ∷ [] else current ++ r ∷ []) in
    if flush then current ∷ rest else rest

batch_loop-layers :
    (rs : List Resource) (last : ℕ) (current : List Resource) (bs : List (List Resource))
    → batch_loop rs last current bs ≡ bs ++ layers rs last current
unfolding batch_loop layers
batch_loop-layers [] last [] bs = sym (append-nil bs)
batch_loop-layers [] last (c ∷ cs) bs = refl
batch_loop-layers (r ∷ rs) last current bs =
    elim (Bool-cases (ltb (segments r) last && nonempty current)) [
      | inl flush ↦
          rw (flush, batch_loop-layers rs (segments r) (r ∷ []) (bs ++ current ∷ []))
            (rw append_assoc)
      | inr on ↦ rw (on, batch_loop-layers rs (segments r) (current ++ r ∷ []) bs)
    ]

layers-flatten :
    (rs : List Resource) (last : ℕ) (current : List Resource)
    → flatten (layers rs last current) ≡ current ++ rs
layers-flatten rs last current =
    ap flatten (sym (batch_loop-layers rs last current [])) ∙ batch_loop-flatten rs last current []

All-snoc :
    (d : ℕ) (b : List Resource) (r : Resource)
    → All (λ x. segments x ≡ d) b
    → segments r ≡ d
    → All (λ x. segments x ≡ d) (b ++ r ∷ [])
All-snoc d [] r h e = (e, tt)
All-snoc d (x ∷ b) r h e = (h.0, All-snoc d b r h.1 e)

All-below :
    (d e : ℕ) (rs : List Resource)
    → e < d
    → All (λ x. segments x ≤ e) rs
    → All (λ x. segments x < d) rs
All-below d e [] h a = tt
All-below d e (r ∷ rs) h a = (omega arith, All-below d e rs h a.1)

layers-IsLayered :
    (rs : List Resource) (d : ℕ) (c : Resource) (cs : List Resource)
    → All (λ x. segments x ≡ d) (c ∷ cs)
    → All (λ x. segments x ≤ d) rs
    → IsDeepestFirst rs
    → IsLayered (layers rs d (c ∷ cs))
unfolding layers
layers-IsLayered [] d c cs h le desc = (d, refl, h, tt, tt)
layers-IsLayered (r ∷ rs) d c cs h le desc = elim (Bool-cases (ltb (segments r) d)) [
  | inl deeper ↦
      let below : segments r < d = ground arith in
      rw deeper (
        d,
        refl,
        h,
        rw (layers-flatten rs (segments r) (r ∷ []))
            (below, All-below d (segments r) rs below desc.0),
        layers-IsLayered rs (segments r) r [] (refl, tt) desc.0 desc.1,
      )
  | inr same ↦
      let at_depth : segments r ≡ d = ground (arith, le.0) in
      rw (same, at_depth)
        (layers-IsLayered rs d c (cs ++ r ∷ []) (All-snoc d (c ∷ cs) r h at_depth) le.1 desc.1)
]

layers-IsLayered_start :
    (rs : List Resource) (last : ℕ) → IsDeepestFirst rs → IsLayered (layers rs last [])
unfolding layers
layers-IsLayered_start [] last desc = tt
layers-IsLayered_start (r ∷ rs) last desc =
    rw (and_false (ltb (segments r) last))
      (layers-IsLayered rs (segments r) r [] (refl, tt) desc.0 desc.1)

-- The batches of `_batch_by_segment_depth` are layers: none is empty, each is of one depth, and
-- every later resource lies less deep.
pub batch_by_segment_depth-IsLayered : (rs : List Resource) → IsLayered (batch_by_segment_depth rs)
unfolding batch_by_segment_depth
batch_by_segment_depth-IsLayered rs =
    rw (batch_loop-layers (sorted_resources rs) maxsize [] [])
      (layers-IsLayered_start (sorted_resources rs) maxsize (sorted_resources-IsDeepestFirst rs))
