-- ===== src/Domain/State/Loops.antt =====
-- The loop over the nodes, where it finds no problem (internal/domain/validate.go).
use m_ui.Prelude.{
  ℕ, ◌≡◌, refl, Bool, false, ◌&&◌, ◌||◌, List, [], ◌∷◌, ◌++◌, arith, All, Text, map, text_eq,
  one_of, leb, sym, subst, ap, ◌∙◌, All-map,
}
use m_ui.Domain.Ports.{PortRange, ranges_overlap}
use m_ui.Domain.Model.{Node}
use m_ui.Domain.Checks.{Problems, join, Library}
use m_ui.Domain.Security.{concat_map}
use m_ui.Domain.Nodes.{validate_node}
use m_ui.Domain.Distinct.{
  Passed, join-Passed, refuse-nil, both_nil, append_nil, left_nil, right_nil, Pairs, Fresh,
}
use m_ui.Domain.State.{BoundRange, ranges_of, conflict, bind_ranges, node_checks, node_problems}

-- A node listens on the port.
abbrev pub holds : ℕ → PortRange → Bool
holds p r = leb r.start p && leb p r.end

abbrev pub any_holds : ℕ → List PortRange → Bool
any_holds p [] = false
any_holds p (r ∷ rs) = holds p r || any_holds p rs

abbrev pub listens_on : Node → ℕ → Bool
listens_on node p = any_holds p (ranges_of node)

-- No port of one address is one that both nodes listen on.
abbrev pub Apart : Node → Node → Type 0
Apart m n =
    (p : ℕ)
    → (text_eq m.listen_address n.listen_address && listens_on m p && listens_on n p) ≡ false

abbrev entry_of : Text → Text → PortRange → BoundRange
entry_of name address r = record { address = address; range = r; name = name }

-- A range of the address conflicts with no entry.
abbrev pub Clear : Text → List PortRange → List BoundRange → Type 0
Clear address [] bound = Unit
Clear address (r ∷ rs) bound = (concat_map (conflict address r) bound ≡ []) × Clear address rs bound

concat_map-left :
    {A : Type 0} (f : A → Problems) (xs ys : List A)
    → concat_map f (xs ++ ys) ≡ []
    → concat_map f xs ≡ []
concat_map-left f [] ys h = refl
concat_map-left f (x ∷ xs) ys h =
    both_nil (left_nil (f x) _ h) (concat_map-left f xs ys (right_nil (f x) _ h))

concat_map-right :
    {A : Type 0} (f : A → Problems) (xs ys : List A)
    → concat_map f (xs ++ ys) ≡ []
    → concat_map f ys ≡ []
concat_map-right f [] ys h = h
concat_map-right f (x ∷ xs) ys h = concat_map-right f xs ys (right_nil (f x) _ h)

Clear-left :
    (address : Text) (rs : List PortRange) (xs ys : List BoundRange)
    → Clear address rs (xs ++ ys)
    → Clear address rs xs
Clear-left address [] xs ys h = tt
Clear-left address (r ∷ rs) xs ys h =
    (concat_map-left (conflict address r) xs ys h.0, Clear-left address rs xs ys h.1)

Clear-right :
    (address : Text) (rs : List PortRange) (xs ys : List BoundRange)
    → Clear address rs (xs ++ ys)
    → Clear address rs ys
Clear-right address [] xs ys h = tt
Clear-right address (r ∷ rs) xs ys h =
    (concat_map-right (conflict address r) xs ys h.0, Clear-right address rs xs ys h.1)

append_snoc :
    {A : Type 0} (xs : List A) (y : A) (ys : List A) → (xs ++ (y ∷ [])) ++ ys ≡ xs ++ (y ∷ ys)
append_snoc [] y ys = refl
append_snoc (x ∷ xs) y ys = ap (λ t. x ∷ t) (append_snoc xs y ys)

bind_ranges-bound :
    (name address : Text) (rs : List PortRange) (bound : List BoundRange)
    → (bind_ranges name address rs bound).1 ≡ bound ++ map (entry_of name address) rs
bind_ranges-bound name address [] bound = sym (append_nil bound)
bind_ranges-bound name address (r ∷ rs) bound =
    bind_ranges-bound name address rs (bound ++ (entry_of name address r ∷ []))
    ∙ append_snoc bound (entry_of name address r) (map (entry_of name address) rs)

bind_ranges-Clear :
    (name address : Text) (rs : List PortRange) (bound : List BoundRange)
    → (bind_ranges name address rs bound).0 ≡ []
    → Clear address rs bound
bind_ranges-Clear name address [] bound h = tt
bind_ranges-Clear name address (r ∷ rs) bound h =
    let entry = entry_of name address r ∷ [] in
    (
      left_nil (concat_map (conflict address r) bound) _ h,
      Clear-left address rs bound entry (
          bind_ranges-Clear name address rs (bound ++ entry)
            (right_nil (concat_map (conflict address r) bound) _ h)),
    )

-- A range that conflicts with no range bound for the address holds no port of theirs.
conflict-holds :
    (name address other : Text) (p : ℕ) (q : PortRange) (rs : List PortRange)
    → concat_map (conflict other q) (map (entry_of name address) rs) ≡ []
    → (text_eq address other && any_holds p rs && holds p q) ≡ false
unfolding ranges_overlap
conflict-holds name address other p q [] h = ground arith
conflict-holds name address other p q (r ∷ rs) h =
    let first = conflict other q (entry_of name address r) in
    let others = concat_map (conflict other q) (map (entry_of name address) rs) in
    let free =
      refuse-nil (text_eq address other && ranges_overlap r q)
        "%s port range conflicts with node %q" (left_nil first others h) in
    ground (arith, free, conflict-holds name address other p q rs (right_nil first others h))

Clear-any_holds :
    (name address other : Text) (p : ℕ) (qs rs : List PortRange)
    → Clear other qs (map (entry_of name address) rs)
    → (text_eq address other && any_holds p rs && any_holds p qs) ≡ false
Clear-any_holds name address other p [] rs h = ground arith
Clear-any_holds name address other p (q ∷ qs) rs h = ground (
  arith,
  conflict-holds name address other p q rs h.0,
  Clear-any_holds name address other p qs rs h.1,
)

Clear-Apart :
    (m n : Node)
    → Clear n.listen_address (ranges_of n) (map (entry_of m.name m.listen_address) (ranges_of m))
    → Apart m n
Clear-Apart m n h p =
    Clear-any_holds m.name m.listen_address n.listen_address p (ranges_of n) (ranges_of m) h

abbrev pub ClearNode : List BoundRange → Node → Type 0
ClearNode bound n = Clear n.listen_address (ranges_of n) bound

abbrev pub id_of : Node → Text
id_of n = n.id

abbrev pub name_of : Node → Text
name_of n = n.name

module _ (lib : Library) where
  -- The checks of the first node and of the others, where no problem is found.
  first_checks :
      (as_of : ℕ) (ids names : List Text) (bound : List BoundRange) (n : Node) (ns : List Node)
      → node_problems lib as_of ids names bound (n ∷ ns) ≡ []
      → All Passed (node_checks lib as_of ids names bound n)
        × (node_problems lib as_of
              (n.id ∷ ids)
              (n.name ∷ names)
              (bind_ranges n.name n.listen_address (ranges_of n) bound).1
              ns
            ≡ [])
  unfolding node_problems
  first_checks as_of ids names bound n ns h =
      let checks = node_checks lib as_of ids names bound n in
      let others =
        node_problems lib as_of (n.id ∷ ids) (n.name ∷ names)
          (bind_ranges n.name n.listen_address (ranges_of n) bound).1 ns in
      (join-Passed checks (left_nil (join checks) others h), right_nil (join checks) others h)

  pub node_problems-Clear :
      (as_of : ℕ) (ids names : List Text) (bound : List BoundRange) (ns : List Node)
      → node_problems lib as_of ids names bound ns ≡ []
      → All (ClearNode bound) ns × Pairs Apart ns
  unfolding node_checks
  node_problems-Clear as_of ids names bound [] h = (tt, tt)
  node_problems-Clear as_of ids names bound (n ∷ ns) h =
      let ranges = ranges_of n in
      let ports = bind_ranges n.name n.listen_address ranges bound in
      let entries = map (entry_of n.name n.listen_address) ranges in
      let checks = first_checks as_of ids names bound n ns h in
      let ih = node_problems-Clear as_of (n.id ∷ ids) (n.name ∷ names) ports.1 ns checks.1 in
      let clear : All (ClearNode (bound ++ entries)) ns =
        subst (λ b. All (ClearNode b) ns) (bind_ranges-bound n.name n.listen_address ranges bound)
          ih.0 in
      (
        (
          bind_ranges-Clear n.name n.listen_address ranges bound checks.0.1.1.0,
          All-map
              (λ (m : Node) (c : ClearNode (bound ++ entries) m).
                Clear-left m.listen_address (ranges_of m) bound entries c)
              ns clear,
        ),
        (
          All-map
              (λ (m : Node) (c : ClearNode (bound ++ entries) m).
                Clear-Apart n m (Clear-right m.listen_address (ranges_of m) bound entries c))
              ns clear,
          ih.1,
        ),
      )

  pub node_problems-Fresh :
      (as_of : ℕ) (ids names : List Text) (bound : List BoundRange) (ns : List Node)
      → node_problems lib as_of ids names bound ns ≡ []
      → Fresh id_of ids ns × Fresh name_of names ns
  unfolding node_checks
  node_problems-Fresh as_of ids names bound [] h = (tt, tt)
  node_problems-Fresh as_of ids names bound (n ∷ ns) h =
      let ports = bind_ranges n.name n.listen_address (ranges_of n) bound in
      let checks = first_checks as_of ids names bound n ns h in
      let ih = node_problems-Fresh as_of (n.id ∷ ids) (n.name ∷ names) ports.1 ns checks.1 in
      (
        (refuse-nil (one_of n.id ids) "%s ID is duplicated" checks.0.0, ih.0),
        (refuse-nil (one_of n.name names) "%s name is duplicated" checks.0.1.0, ih.1),
      )

  -- Every node passed its check.
  pub node_problems-All :
      (as_of : ℕ) (ids names : List Text) (bound : List BoundRange) (ns : List Node)
      → node_problems lib as_of ids names bound ns ≡ []
      → All (λ (n : Node). validate_node lib n as_of ≡ []) ns
  unfolding node_checks
  node_problems-All as_of ids names bound [] h = tt
  node_problems-All as_of ids names bound (n ∷ ns) h =
      let ports = bind_ranges n.name n.listen_address (ranges_of n) bound in
      let checks = first_checks as_of ids names bound n ns h in
      (checks.0.1.1.1.0, node_problems-All as_of (n.id ∷ ids) (n.name ∷ names) ports.1 ns checks.1)
