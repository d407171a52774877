-- ===== src/ResourceId/Split.antt =====
-- How `split` on slashes meets `join` and concatenation.
use Prim.Native.Char.{Char, code}
use Prim.Native.String.{◌∷◌}
use Prim.Native.String.append
use mathlib.Core.List.{append-nil}
use azure_iot_ops_cli_extens.Base
use azure_iot_ops_cli_extens.Base.{
  String, ◌<>◌, ◌≡◌, refl, ◌∙◌, sym, ap, Bool, true, false, Option, none, some, List, [], ◌++◌,
  arith, if◌then◌else◌, ◌==◌, string_eq, nat_eq, lower, truthy, split, join, onto_first, flatten,
  map, All, ◌≢◌,
}
use azure_iot_ops_cli_extens.ResourceId.{slash}

pub split-ne-nil : (s : String) → split slash s ≢ []
unfolding split
split-ne-nil String.[] e = cc
split-ne-nil (c ∷ s) e = go (split slash s) (code c == slash) e
  where
    go : (ps : List String) (b : Bool) → (if b then Base.◌∷◌ "" ps else onto_first c ps) ≡ [] → ⊥
    go ps true p = cc
    go [] false p = cc
    go (Base.◌∷◌ q qs) false p = cc

onto_first-append :
    (c : Char) (ps qs : List String) → ps ≢ [] → onto_first c (ps ++ qs) ≡ onto_first c ps ++ qs
onto_first-append c [] qs h = absurd (h refl)
onto_first-append c (Base.◌∷◌ p ps) qs h = refl

pub split-append : (a b : String) → split slash (a <> ("/" <> b)) ≡ split slash a ++ split slash b
unfolding split nat_eq
split-append String.[] b = rw append.nil (rw append.cons (rw append.nil refl))
split-append (c ∷ a) b = rw (append.cons c a ("/" <> b)) (
    rw (split-append a b, onto_first-append c (split slash a) (split slash b) (split-ne-nil a))
      (ground arith))

-- The pieces of a joined text are those of its parts.
pub split-join :
    (p : String) (ps : List String)
    → split slash (join "/" (Base.◌∷◌ p ps)) ≡ flatten (map (split slash) (Base.◌∷◌ p ps))
unfolding join
split-join p [] = sym (append-nil (split slash p))
split-join p (Base.◌∷◌ q ps) = split-append p (join "/" (Base.◌∷◌ q ps)) ∙ rw (split-join q ps)
