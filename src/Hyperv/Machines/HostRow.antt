-- ===== src/Hyperv/Machines/HostRow.antt =====
-- hyperv/host_filter.go: the host is the only machine that is no guest.
use go_wsman.Common.{
  ◌≡◌, refl, ap, ◌∙◌, ◌↔◌, Bool, true, false, List, [], ◌∷◌, ◌++◌, Bytes, ok, filter, All,
  Bool-cases, inl, inr,
}
use go_wsman.Common.Unique.{Only, filter-Only}
use go_wsman.Hyperv.Fields.{Field}
use go_wsman.Hyperv.Machines.{
  exactly_one, is_host_computer_system, filter_host_computer_systems,
  filter_out_host_computer_systems, pick_host_computer_system,
}

exactly_one_ok : (xs : List (List Field)) {x : List Field} → exactly_one xs ≡ ok x → xs ≡ x ∷ []
unfolding exactly_one
exactly_one_ok [] e = cc
exactly_one_ok (x ∷ []) e = ap (λ z. z ∷ []) (cc)
exactly_one_ok (x ∷ y ∷ xs) e = cc

module _ (is_uuid : Bytes → Bool) where
  abbrev pub is_host : List Field → Bool
  is_host cs = is_host_computer_system is_uuid cs

  guests_append :
      (xs ys : List (List Field))
      → filter_out_host_computer_systems is_uuid (xs ++ ys)
        ≡ filter_out_host_computer_systems is_uuid xs ++ filter_out_host_computer_systems is_uuid ys
  unfolding filter_out_host_computer_systems
  guests_append [] ys = refl
  guests_append (x ∷ xs) ys = elim (Bool-cases (is_host_computer_system is_uuid x)) [
    | inl e ↦ rw e (guests_append xs ys)
    | inr e ↦ rw e (ap (λ l. x ∷ l) (guests_append xs ys))
  ]

  guests_only :
      (xs : List (List Field))
      → All (λ y. is_host y ≡ false) xs
      → filter_out_host_computer_systems is_uuid xs ≡ xs
  unfolding filter_out_host_computer_systems
  guests_only [] h = refl
  guests_only (x ∷ xs) (hx, h) = rw hx (ap (λ l. x ∷ l) (guests_only xs h))

  no_guest :
      (x : List Field) (xs : List (List Field))
      → is_host x ≡ true
      → filter_out_host_computer_systems is_uuid (x ∷ xs)
        ≡ filter_out_host_computer_systems is_uuid xs
  unfolding filter_out_host_computer_systems
  no_guest x xs e = rw e refl

  -- `x` is the only host of the list, and the guests are all the others, in their order.
  pub record HostAmong (x : List Field) (all : List (List Field)) : Type 0 where
    pub only : Only is_host x all
    pub guests : filter_out_host_computer_systems is_uuid all ≡ only.before ++ only.after

  host_among : (x : List Field) (all : List (List Field)) → Only is_host x all → HostAmong x all
  host_among x all o = record {
    only = o;
    guests =
        ap (filter_out_host_computer_systems is_uuid) o.split_at
        ∙ guests_append o.before (x ∷ o.after)
        ∙ (rw (guests_only o.before o.none_before)
            (rw (no_guest x o.after o.passes) (rw (guests_only o.after o.none_after) refl)));
  }

  pick_only_if :
      (all : List (List Field)) {x : List Field}
      → pick_host_computer_system is_uuid all ≡ ok x
      → HostAmong x all
  unfolding pick_host_computer_system filter_host_computer_systems
  pick_only_if all {x} e =
      host_among x all ((filter-Only is_host x all).0 (exactly_one_ok (filter is_host all) e))

  pick_if :
      (all : List (List Field)) {x : List Field}
      → HostAmong x all
      → pick_host_computer_system is_uuid all ≡ ok x
  unfolding pick_host_computer_system filter_host_computer_systems exactly_one
  pick_if all {x} h = ap exactly_one ((filter-Only is_host x all).1 h.only)

  -- `pickHostComputerSystem` returns a machine exactly if it is the only one of the listing whose name
  -- is not a UUID; and then `filterOutHostComputerSystems` keeps all the others, in their order.
  pub pick_host_computer_system-HostAmong :
      (all : List (List Field)) (x : List Field)
      → (pick_host_computer_system is_uuid all ≡ ok x) ↔ HostAmong x all
  pick_host_computer_system-HostAmong all x = (pick_only_if all, pick_if all)
