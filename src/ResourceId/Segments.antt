-- ===== src/ResourceId/Segments.antt =====
-- The pieces between the slashes of an id that `resource_id` builds.
use text.Mathlib.TextLemmas.{append_assoc as text_assoc}
use azure_iot_ops_cli_extens.Base.{
  String, ◌<>◌, ◌≡◌, refl, ◌∙◌, false, Option, none, some, List, [], ◌∷◌, ◌++◌, ◌==◌, string_eq,
  lower, split, flatten, map, All,
}
use azure_iot_ops_cli_extens.ResourceId.Split.{split-append}
use azure_iot_ops_cli_extens.ResourceId.{
  slash, Child, Parts, matched, find_children, child_parts, root_parts, to_args, labelled,
  map_child_args,
}

-- A text with no slash in it: one piece.
abbrev pub IsSegment : String → Type 0
IsSegment s = split slash s ≡ s ∷ []

abbrev pub IsLabel : Option String → Type 0
IsLabel none = Unit
IsLabel (some s) = IsSegment s

-- A child whose provider is not named must not be taken for a provider itself.
abbrev pub IsNamespaceFor : Option String → String → Type 0
IsNamespaceFor none t = (lower t == "providers") ≡ false
IsNamespaceFor (some ns) t = IsSegment ns

abbrev pub IsChild : Child → Type 0
IsChild c = IsNamespaceFor c.namespace c.type × IsSegment c.type × IsSegment c.name

-- Namespace, type and name stand together or not at all; children need them.
abbrev pub IsRoot : Option String → Option String → Option String → List Child → Type 0
IsRoot none none none [] = Unit
IsRoot (some ns) (some t) (some n) cs = IsSegment ns × IsSegment t × IsSegment n × All IsChild cs
IsRoot _ _ _ _ = ⊥

abbrev pub IsWellFormed : Parts → Type 0
IsWellFormed p =
    IsSegment p.subscription
    × IsLabel p.resource_group
    × IsRoot p.namespace p.type p.name p.children

provider_pieces : Option String → List String → List String
provider_pieces none rest = rest
provider_pieces (some ns) rest = "providers" ∷ ns ∷ rest

-- The pieces that stand for the children.
pub child_pieces : List Child → List String
unfolding provider_pieces
child_pieces [] = []
child_pieces (c ∷ cs) = provider_pieces c.namespace (c.type ∷ c.name ∷ child_pieces cs)

abbrev NotSingle : List String → Type 0
NotSingle (_ ∷ []) = ⊥
NotSingle _ = Unit

child_pieces-NotSingle : (cs : List Child) → NotSingle (child_pieces cs)
unfolding child_pieces
child_pieces-NotSingle [] = tt
child_pieces-NotSingle (c ∷ cs) = go c.namespace
  where
    go : (ns : Option String) → NotSingle (provider_pieces ns (c.type ∷ c.name ∷ child_pieces cs))
    go none = tt
    go (some _) = tt

find_children-plain :
    (t n : String) (rest : List String)
    → NotSingle rest
    → (lower t == "providers") ≡ false
    → find_children (t ∷ n ∷ rest)
      ≡ record { namespace = none; type = t; name = n } ∷ find_children rest
unfolding find_children
find_children-plain t n [] ok h = refl
find_children-plain t n (u ∷ []) ok h = absurd ok
find_children-plain t n (u ∷ v ∷ rest) ok h = rw h refl

find_children-nested :
    (ns t n : String) (rest : List String)
    → find_children ("providers" ∷ ns ∷ t ∷ n ∷ rest)
      ≡ record { namespace = some ns; type = t; name = n } ∷ find_children rest
unfolding find_children lower string_eq
find_children-nested ns t n rest = refl

pub find_children-child_pieces :
    (cs : List Child) → All IsChild cs → find_children (child_pieces cs) ≡ cs
unfolding child_pieces
find_children-child_pieces [] ok = unfold find_children in refl
find_children-child_pieces (c ∷ cs) ok = go c.namespace ok.0.0 (find_children-child_pieces cs ok.1)
  where
    go :
        (ns : Option String)
        → IsNamespaceFor ns c.type
        → find_children (child_pieces cs) ≡ cs
        → find_children (provider_pieces ns (c.type ∷ c.name ∷ child_pieces cs))
          ≡ record { namespace = ns; type = c.type; name = c.name } ∷ cs
    go none h ih =
        find_children-plain c.type c.name (child_pieces cs) (child_pieces-NotSingle cs) h ∙ rw ih
    go (some ns) h ih = find_children-nested ns c.type c.name (child_pieces cs) ∙ rw ih

pair_pieces :
    (a b : String) → IsSegment a → IsSegment b → split slash (a <> ("/" <> b)) ≡ a ∷ b ∷ []
pair_pieces a b p q = split-append a b ∙ rw (p, q)

pub labelled_pieces :
    (l v : String) → IsSegment l → IsSegment v → split slash ((l <> "/") <> v) ≡ l ∷ v ∷ []
labelled_pieces l v p q = rw text_assoc (pair_pieces l v p q)

-- The parts that `resource_id` joins split into those pieces.
child_parts-pieces :
    (cs : List Child)
    → All IsChild cs
    → flatten (map (split slash) (child_parts (map_child_args cs))) ≡ child_pieces cs
unfolding child_parts child_pieces
child_parts-pieces [] ok = refl
child_parts-pieces (c ∷ cs) ok = go c.namespace ok.0.0 (child_parts-pieces cs ok.1)
  where
    pieces : split slash (c.type <> ("/" <> c.name)) ≡ c.type ∷ c.name ∷ []
    pieces = pair_pieces c.type c.name ok.0.1 ok.0.2

    go :
        (ns : Option String)
        → IsNamespaceFor ns c.type
        → flatten (map (split slash) (child_parts (map_child_args cs))) ≡ child_pieces cs
        → flatten (
            map (split slash) (
              labelled "providers/" ns
              ++ (c.type <> ("/" <> c.name)) ∷ child_parts (map_child_args cs)))
          ≡ provider_pieces ns (c.type ∷ c.name ∷ child_pieces cs)
    go none h ih = rw (pieces, ih)
    go (some ns) h ih = rw (labelled_pieces "providers" ns (unfold split in refl) h, pieces, ih)

-- The pieces behind the resource group.
unfoldable pub root_pieces :
    Option String → Option String → Option String → List Child → List String
unfolding child_pieces
root_pieces (some ns) (some t) (some n) cs = "providers" ∷ ns ∷ t ∷ n ∷ child_pieces cs
root_pieces _ _ _ _ = []

pub root_parts-pieces :
    (p : Parts)
    → IsRoot p.namespace p.type p.name p.children
    → flatten (map (split slash) (root_parts (to_args (matched p))))
      ≡ root_pieces p.namespace p.type p.name p.children
unfolding root_parts root_pieces
root_parts-pieces p ok = go p.namespace p.type p.name p.children ok
  where
    go :
        (ns t n : Option String) (cs : List Child)
        → IsRoot ns t n cs
        → flatten (
            map (split slash) (
              root_parts (record {
                subscription = some p.subscription;
                resource_group = p.resource_group;
                namespace = ns;
                type = t;
                name = n;
                children = map_child_args cs;
              })))
          ≡ root_pieces ns t n cs
    go none none none [] h = refl
    go none none none (_ ∷ _) h = absurd h
    go none none (some _) cs h = absurd h
    go none (some _) n cs h = absurd h
    go (some ns) none n cs h = absurd h
    go (some ns) (some t) none cs h = absurd h
    go (some ns) (some t) (some n) cs h = rw (
      labelled_pieces "providers" ns (unfold split in refl) h.0,
      pair_pieces t n h.1 h.2,
      child_parts-pieces cs h.3,
    )
