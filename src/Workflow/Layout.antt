-- ===== src/Workflow/Layout.antt =====
-- The colours of categories and the widths of lines.
use Prim.Native.String.append
use Prim.Native.Nat.{max}
use azure_iot_ops_cli_extens.Base.{
  ℕ, zero, suc, ◌+◌, ◌-◌, ◌≡◌, ◌↔◌, refl, String, ◌<>◌, true, false, List, [], ◌∷◌, map, arith, any,
  all, str_len, text-ne,
}
use azure_iot_ops_cli_extens.Base.Dict.{values}
use azure_iot_ops_cli_extens.Workflow.{
  StepState, Entry, Steps, is_failed, is_active, is_done, category_style, repeat_text,
  format_dot_leader,
}

str_len-append : (s t : String) → str_len (s <> t) ≡ str_len s + str_len t
unfolding str_len
str_len-append String.[] t = rw append.nil (omega arith)
str_len-append (String.◌∷◌ c s) t = rw append.cons (omega (arith, str_len-append s t))

str_len-repeat_text : (s : String) (n : ℕ) → str_len s ≡ 1 → str_len (repeat_text s n) ≡ n
unfolding repeat_text
str_len-repeat_text s zero h = unfold str_len in refl
str_len-repeat_text s (suc n) h = rw str_len-append (omega (arith, str_len-repeat_text s n h))

-- With a dot of one character, a line has the asked width if its texts fit, and keeps two dots and
-- two spaces otherwise.
pub format_dot_leader-len :
    (name detail : String) (width : ℕ) (indent dot : String)
    → str_len dot ≡ 1
    → str_len (format_dot_leader name detail width indent dot)
      ≡ max width (str_len indent + str_len name + str_len detail + 4)
unfolding format_dot_leader
format_dot_leader-len name detail width indent dot h =
    rw (str_len-append, str_len-append, str_len-append, str_len-append, str_len-append)
      (omega (
        arith,
        str_len-repeat_text dot (max (width - str_len indent - str_len name - str_len detail - 2) 2)
            h,
      ))

all_done→no_failed :
    (states : List StepState)
    → all is_done states ≡ true
    → (any is_failed states ≡ false) × (any is_active states ≡ false)
all_done→no_failed [] h = (refl, refl)
all_done→no_failed (s ∷ ss) h = ground (arith, all_done→no_failed ss)

abbrev pub states_of : Steps → List StepState
states_of entries = map (λ (e : Entry). e.state) (values entries)

-- A category is red iff one of its steps failed, and unstyled iff all are complete or skipped.
category_style_iff :
    (entries : Steps)
    → ((category_style entries ≡ "red") ↔ (any is_failed (states_of entries) ≡ true))
      × ((category_style entries ≡ "") ↔ (all is_done (states_of entries) ≡ true))
unfolding category_style
category_style_iff entries = ground (
  arith,
  all_done→no_failed (states_of entries),
  text-ne "" "red" refl,
  text-ne "cyan" "red" refl,
  text-ne "dim" "red" refl,
  text-ne "red" "" refl,
  text-ne "cyan" "" refl,
  text-ne "dim" "" refl,
)
