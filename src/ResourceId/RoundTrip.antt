-- ===== src/ResourceId/RoundTrip.antt =====
-- `parse_resource_id` on the ids that `resource_id` builds.
use mathlib.Core.Option.{some-injective}
use text.Mathlib.TextLemmas.{append_assoc as text_assoc}
use azure_iot_ops_cli_extens.Base.{
  String, ◌<>◌, ◌≡◌, refl, ◌∙◌, sym, ap, true, Option, none, some, List, [], ◌∷◌, ◌++◌, string_eq,
  lower, truthy, split, join, flatten, map, eq_self,
}
use azure_iot_ops_cli_extens.ResourceId.Split.{split-append, split-join}
use azure_iot_ops_cli_extens.ResourceId.Segments.{
  IsLabel, IsWellFormed, IsRoot, root_pieces, find_children-child_pieces, labelled_pieces,
  root_parts-pieces,
}
use azure_iot_ops_cli_extens.ResourceId.{
  slash, Child, Parts, matched, match_providers, match_group, match_id, labelled, parse_resource_id,
  root_parts, resource_id, to_args, is_valid_resource_id,
}

-- The text that `resource_id` builds from parsed parts.
built : Parts → String
built p = join "/" (
    ("/subscriptions/" <> p.subscription)
    ∷ (labelled "resourceGroups/" p.resource_group ++ root_parts (to_args (matched p))))

resource_id-matched : (p : Parts) → resource_id (to_args (matched p)) ≡ some (built p)
unfolding resource_id built
resource_id-matched p = refl

group_pieces : Option String → List String → List String
group_pieces none rest = rest
group_pieces (some v) rest = "resourceGroups" ∷ v ∷ rest

head : (v : String) → split slash ("/subscriptions/" <> v) ≡ "" ∷ "subscriptions" ∷ split slash v
unfolding split
head v = ap (split slash) (text_assoc "/subscriptions" "/" v) ∙ split-append "/subscriptions" v

built-pieces :
    (p : Parts)
    → IsWellFormed p
    → split slash (built p)
      ≡ ""
        ∷ "subscriptions"
        ∷ p.subscription
        ∷ group_pieces p.resource_group (root_pieces p.namespace p.type p.name p.children)
unfolding built group_pieces
built-pieces p ok =
    split-join ("/subscriptions/" <> p.subscription)
      (labelled "resourceGroups/" p.resource_group ++ root_parts (to_args (matched p)))
    ∙ go p.resource_group ok.1
  where
    go :
        (rg : Option String)
        → IsLabel rg
        → flatten (
            map (split slash) (
              ("/subscriptions/" <> p.subscription)
              ∷ (labelled "resourceGroups/" rg ++ root_parts (to_args (matched p)))))
          ≡ ""
            ∷ "subscriptions"
            ∷ p.subscription
            ∷ group_pieces rg (root_pieces p.namespace p.type p.name p.children)
    go none h = rw (head p.subscription, ok.0, root_parts-pieces p ok.2)
    go (some v) h = rw (
      head p.subscription,
      ok.0,
      labelled_pieces "resourceGroups" v (unfold split in refl) h,
      root_parts-pieces p ok.2,
    )

match_providers-pieces :
    (sub : String) (rg ns t n : Option String) (cs : List Child)
    → IsRoot ns t n cs
    → match_providers sub rg (root_pieces ns t n cs) ≡ record {
      subscription = sub;
      resource_group = rg;
      namespace = ns;
      type = t;
      name = n;
      children = cs;
    }
unfolding match_providers root_pieces lower string_eq
match_providers-pieces sub rg none none none [] h = refl
match_providers-pieces sub rg none none none (_ ∷ _) h = absurd h
match_providers-pieces sub rg none none (some _) cs h = absurd h
match_providers-pieces sub rg none (some _) n cs h = absurd h
match_providers-pieces sub rg (some ns) none n cs h = absurd h
match_providers-pieces sub rg (some ns) (some t) none cs h = absurd h
match_providers-pieces sub rg (some ns) (some t) (some n) cs h =
    rw (find_children-child_pieces cs h.3)

match_group_skip :
    (sub : String) (ns t n : Option String) (cs : List Child)
    → IsRoot ns t n cs
    → match_group sub (root_pieces ns t n cs) ≡ match_providers sub none (root_pieces ns t n cs)
unfolding match_group root_pieces lower string_eq
match_group_skip sub none none none [] h = refl
match_group_skip sub none none none (_ ∷ _) h = absurd h
match_group_skip sub none none (some _) cs h = absurd h
match_group_skip sub none (some _) n cs h = absurd h
match_group_skip sub (some ns) none n cs h = absurd h
match_group_skip sub (some ns) (some t) none cs h = absurd h
match_group_skip sub (some ns) (some t) (some n) cs h = refl

match_group-pieces :
    (p : Parts)
    → IsWellFormed p
    → match_group p.subscription
        (group_pieces p.resource_group (root_pieces p.namespace p.type p.name p.children))
      ≡ p
unfolding group_pieces
match_group-pieces p ok = go p.resource_group
  where
    go :
        (rg : Option String)
        → match_group p.subscription
            (group_pieces rg (root_pieces p.namespace p.type p.name p.children))
          ≡ record p { resource_group = rg }
    go none =
        match_group_skip p.subscription p.namespace p.type p.name p.children ok.2
        ∙ match_providers-pieces p.subscription none p.namespace p.type p.name p.children ok.2
    go (some v) =
        unfold match_group lower string_eq in
        match_providers-pieces p.subscription (some v) p.namespace p.type p.name p.children ok.2

truthy-pieces :
    (s : String) {a b : String} {rest : List String}
    → split slash s ≡ a ∷ b ∷ rest
    → truthy s ≡ true
unfolding split
truthy-pieces String.[] h = cc
truthy-pieces (String.◌∷◌ c s) h = refl

built-truthy : (p : Parts) → IsWellFormed p → truthy (built p) ≡ true
built-truthy p ok = truthy-pieces (built p) (built-pieces p ok)

parse_resource_id-built : (p : Parts) → IsWellFormed p → parse_resource_id (built p) ≡ matched p
unfolding parse_resource_id
parse_resource_id-built p ok =
    rw (built-truthy p ok, built-pieces p ok)
      (unfold match_id lower string_eq in ap matched (match_group-pieces p ok))

-- What `resource_id` builds from well-formed parts is parsed to the same parts by
-- `parse_resource_id`.
pub parse_resource_id-resource_id :
    (p : Parts) (rid : String)
    → IsWellFormed p
    → resource_id (to_args (matched p)) ≡ some rid
    → parse_resource_id rid ≡ matched p
parse_resource_id-resource_id p rid ok h =
    rw (some-injective rid (built p) (sym h ∙ resource_id-matched p)) (parse_resource_id-built p ok)

is_valid_resource_id-built : (p : Parts) → IsWellFormed p → is_valid_resource_id (built p) ≡ true
unfolding is_valid_resource_id
is_valid_resource_id-built p ok =
    rw (built-truthy p ok, parse_resource_id-built p ok, resource_id-matched p)
      (eq_self (lower (built p)))

-- An id that `resource_id` builds from well-formed parts is valid.
is_valid_resource_id-resource_id :
    (p : Parts) (rid : String)
    → IsWellFormed p
    → resource_id (to_args (matched p)) ≡ some rid
    → is_valid_resource_id rid ≡ true
is_valid_resource_id-resource_id p rid ok h =
    rw (some-injective rid (built p) (sym h ∙ resource_id-matched p))
      (is_valid_resource_id-built p ok)
