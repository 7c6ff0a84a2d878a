-- ===== src/Hyperv/Calls/Listed.antt =====
-- hyperv/: from which rows of the host the results of a filtered listing are read.
use mathlib.Core.Path.{subst}
use go_wsman.Common.{
  ◌≡◌, refl, ap, ◌∙◌, Bool, true, inl, inr, Bool-cases, Result-cases, List, [], ◌∷◌, ◌++◌,
  append_assoc, filter, All, Bytes, String, ok, has_prefix, codes, arith,
}
use go_wsman.Common.Props.{Props}
use go_wsman.Hyperv.Fields.{Field, unmarshal_list}
use go_wsman.Hyperv.Server.{
  Request, enumerate, Host, Reply, instances, as_instances, enumerate_all, unmarshal, unmarshal_all,
  bind_ok, ◌>>=◌, return,
}
use go_wsman.Hyperv.Calls.{
  class_uri, property_of, enumerate_filtered, list_filtered, get_filtered, first_of, of_vm,
  match_setting_data_vm,
}

-- a text that begins with another
pub has_prefix_split : (s p : Bytes) → has_prefix s p ≡ true → (rest : Bytes) × (s ≡ p ++ rest)
unfolding has_prefix
has_prefix_split s [] h = (s, refl)
has_prefix_split [] (y ∷ p) h = cc
has_prefix_split (x ∷ s) (y ∷ p) h =
    let (rest, same) = has_prefix_split s p (ground arith) in
    let first : x ≡ y = ground arith in
    (rest, ap (λ t. x ∷ t) same ∙ ap (λ c. c ∷ (p ++ rest)) first)

-- The row is one of the machine: its InstanceID begins with `Microsoft:` and the GUID.
abbrev pub OfMachine : Bytes → Props → Type 0
OfMachine vm row =
    (rest : Bytes) × (property_of "InstanceID" row ≡ (codes "Microsoft:" ++ vm) ++ rest)

pub of_vm-OfMachine : (vm : Bytes) (row : Props) → of_vm vm row ≡ true → OfMachine vm row
unfolding match_setting_data_vm
of_vm-OfMachine vm row h =
    has_prefix_split (property_of "InstanceID" row) (codes "Microsoft:" ++ vm) h

-- The row is among the rows.
abbrev pub Among : List Props → Props → Type 0
Among rows row = (front : List Props) × (back : List Props) × (rows ≡ front ++ row ∷ back)

module _ (keep : Props → Bool) where
  abbrev Kept : List Props → Props → Type 0
  Kept rows row = Among rows row × (keep row ≡ true)

  filter_rest : (front rest : List Props) → All (Kept (front ++ rest)) (filter keep rest)
  filter_rest front [] = tt
  filter_rest front (row ∷ rest) =
      let behind =
        subst (λ rows. All (Kept rows) (filter keep rest)) (append_assoc front (row ∷ []) rest)
          (filter_rest (front ++ row ∷ []) rest) in
      elim (Bool-cases (keep row)) [
        | inl kept ↦ rw kept (((front, rest, refl), kept), behind)
        | inr dropped ↦ rw dropped behind
      ]

  filter_lem : (rows : List Props) → All (Kept rows) (filter keep rows)
  filter_lem rows = filter_rest [] rows

module _ (schema : List Field) (P : Props → Type 0) where
  -- what is read from a row that has the property
  abbrev pub ReadFrom : List Field → Type 0
  ReadFrom fields = (row : Props) × P row × (unmarshal_list row schema ≡ ok fields)

  unmarshal_read :
      (row : Props) (h : List Request) {fields : List Field} {h' : List Request}
      → unmarshal row schema h ≡ (ok fields, h')
      → unmarshal_list row schema ≡ ok fields
  unmarshal_read row h e = elim (Result-cases (unmarshal_list row schema)) [
    | inl (x, good) ↦ (let e' = rw good at e in good ∙ ap ok (cc))
    | inr (x, bad) ↦ (let e' = rw bad at e in cc)
  ]

  unmarshal_all-ReadFrom :
      (rows : List Props) (h : List Request) {found : List (List Field)} {h' : List Request}
      → All P rows
      → unmarshal_all schema rows h ≡ (ok found, h')
      → All ReadFrom found
  unfolding unmarshal_all
  unmarshal_all-ReadFrom [] h {found} all e =
      (let same : [] ≡ found = cc in subst (All ReadFrom) same tt)
  unmarshal_all-ReadFrom (row ∷ rows) h {found} (p, all) e =
      let (x, h₁, first, rest) =
        bind_ok (unmarshal row schema h) (λ x. unmarshal_all schema rows >>= λ xs. return (x ∷ xs))
          e in
      let (xs, h₂, others, made) =
        bind_ok (unmarshal_all schema rows h₁) (λ xs. return (x ∷ xs)) rest in
      let same : x ∷ xs ≡ found = cc in
      subst (All ReadFrom) same
        ((row, p, unmarshal_read row h first), unmarshal_all-ReadFrom rows h₁ all others)

module _ (host : Host) (class : String) (keep : Props → Bool) (schema : List Field) where
  -- The host has answered the listing of the class with rows, and the test holds of one of them, from
  -- which the fields are read.
  pub record Listed (h : List Request) (fields : List Field) : Type 0 where
    pub rows : List Props
    pub answered : host h (enumerate (class_uri class)) ≡ instances rows
    pub read : ReadFrom schema (Kept keep rows) fields

  rows_answered : (r : Reply) {rows : List Props} → as_instances r ≡ ok rows → r ≡ instances rows
  rows_answered (instances is) e = ap instances (cc)
  rows_answered _ e = cc

  filtered_ok :
      (h : List Request) {kept : List Props} {h' : List Request}
      → enumerate_filtered host (class_uri class) keep h ≡ (ok kept, h')
      → (rows : List Props) × (host h (enumerate (class_uri class)) ≡ instances rows)
        × (filter keep rows ≡ kept)
  unfolding enumerate_filtered enumerate_all
  filtered_ok h {kept} e =
      elim (Result-cases (as_instances (host h (enumerate (class_uri class))))) [
        | inl (rows, good) ↦ (let e' = rw good at e in (rows, rows_answered _ good, (cc)))
        | inr (x, bad) ↦ (let e' = rw bad at e in cc)
      ]

  rows_read :
      (h : List Request) (rows : List Props)
      → host h (enumerate (class_uri class)) ≡ instances rows
      → (found : List (List Field)) → All (ReadFrom schema (Kept keep rows)) found
      → All (Listed h) found
  rows_read h rows answered [] all = tt
  rows_read h rows answered (x ∷ xs) (r, all) =
      (record { rows = rows; answered = answered; read = r }, rows_read h rows answered xs all)

  first_read :
      (h : List Request) (rows : List Props)
      → host h (enumerate (class_uri class)) ≡ instances rows
      → (kept : List Props) (h₁ : List Request) {found : List Field} {h' : List Request}
      → All (Kept keep rows) kept
      → first_of host schema kept h₁ ≡ (ok found, h')
      → Listed h found
  first_read h rows answered [] h₁ all e = cc
  first_read h rows answered (row ∷ kept) h₁ (p, all) e = record {
    rows = rows;
    answered = answered;
    read = (row, p, unmarshal_read schema (Kept keep rows) row h₁ e);
  }

  pub list_filtered-Listed :
      (h : List Request) {found : List (List Field)} {h' : List Request}
      → list_filtered host class keep schema h ≡ (ok found, h')
      → All (Listed h) found
  unfolding list_filtered
  list_filtered-Listed h {found} e =
      let (kept, h₁, listed, rest) =
        bind_ok (enumerate_filtered host (class_uri class) keep h)
          (λ kept. unmarshal_all schema kept) e in
      let (rows, answered, same) = filtered_ok h listed in
      rows_read h rows answered found (
        unmarshal_all-ReadFrom schema (Kept keep rows) kept h₁
          (subst (All (Kept keep rows)) same (filter_lem keep rows)) rest)

  pub get_filtered-Listed :
      (h : List Request) {found : List Field} {h' : List Request}
      → get_filtered host class keep schema h ≡ (ok found, h')
      → Listed h found
  unfolding get_filtered
  get_filtered-Listed h {found} e =
      let (kept, h₁, listed, rest) =
        bind_ok (enumerate_filtered host (class_uri class) keep h)
          (λ kept. first_of host schema kept) e in
      let (rows, answered, same) = filtered_ok h listed in
      first_read h rows answered kept h₁ (subst (All (Kept keep rows)) same (filter_lem keep rows))
        rest

-- The host has answered the listing of the class with rows, one of them belongs to the machine, and the
-- fields are read from it.
pub record ListedOf (host : Host) (class : String) (vm : Bytes) (Also : Props → Type 0)
    (schema : List Field) (h : List Request) (fields : List Field) : Type 0 where
  pub rows : List Props
  pub answered : host h (enumerate (class_uri class)) ≡ instances rows
  pub row : Props
  pub among : Among rows row
  pub owned : OfMachine vm row
  pub also : Also row
  pub read : unmarshal_list row schema ≡ ok fields

pub Listed-ListedOf :
    (host : Host) (class : String) (keep : Props → Bool) (vm : Bytes) (Also : Props → Type 0)
    (schema : List Field) (h : List Request) (fields : List Field)
    → ((row : Props) → keep row ≡ true → OfMachine vm row × Also row)
    → Listed host class keep schema h fields
    → ListedOf host class vm Also schema h fields
Listed-ListedOf host class keep vm Also schema h fields means l =
    let (row, (among, kept), read) = l.read in
    let (owned, also) = means row kept in
    record {
      rows = l.rows;
      answered = l.answered;
      row = row;
      among = among;
      owned = owned;
      also = also;
      read = read;
    }
