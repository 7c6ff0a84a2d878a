-- ===== src/Hyperv/Checkpoint/Resolution.antt =====
-- hyperv/checkpoint.go: `ResolveCreatedCheckpoint` returns the one checkpoint that the job created.
use go_wsman.Common.{
  ◌≡◌, refl, sym, ap, ◌∙◌, ◌↔◌, Bool, true, false, not, ◌&&◌, List, [], ◌∷◌, map, filter, Bytes,
  str_eq, is_empty, has_prefix, trim_space, ok, Bool-cases, Result-cases, inl, inr, arith,
}
use go_wsman.Common.Props.{Props}
use go_wsman.Common.Unique.{Only, filter-Only}
use go_wsman.Hyperv.Server.{Request, enumerate, Host, Reply, instances, as_instances, enumerate_all}
use go_wsman.Hyperv.Calls.{property_of, class_uri}
use go_wsman.Hyperv.Checkpoint.{
  has_element_effect, element_effects_create, snapshot_instance_id_prefix, created_elements,
  the_checkpoint, resolve_created_checkpoint,
}

-- the element of a row of `Msvm_AffectedJobElement`
abbrev pub element_of : Props → Bytes
element_of inst = property_of "AffectedElement" inst

-- The row says that the job created an element.
abbrev pub is_created : Bytes → Props → Bool
is_created job_id inst =
    str_eq (property_of "AffectingElement" inst) job_id
    && has_element_effect inst element_effects_create
    && not (is_empty (element_of inst))

created_elements-filter :
    (job_id : Bytes) (rows : List Props)
    → created_elements job_id rows ≡ map element_of (filter (is_created job_id) rows)
unfolding created_elements
created_elements-filter job_id [] = refl
created_elements-filter job_id (inst ∷ rows) = ground (arith, created_elements-filter job_id rows)

the_checkpoint_ok :
    (ids : List Bytes) (id : Bytes)
    → the_checkpoint ids ≡ ok id
    → (ids ≡ id ∷ []) × (has_prefix id snapshot_instance_id_prefix ≡ true)
unfolding the_checkpoint
the_checkpoint_ok [] id e = cc
the_checkpoint_ok (a ∷ []) id e = ground arith
the_checkpoint_ok (a ∷ b ∷ ids) id e = cc

ok_the_checkpoint :
    (id : Bytes)
    → has_prefix id snapshot_instance_id_prefix ≡ true
    → the_checkpoint (id ∷ []) ≡ ok id
unfolding the_checkpoint
ok_the_checkpoint id e = rw e refl

-- a list whose images are one element
map_single :
    (xs : List Props) (id : Bytes)
    → map element_of xs ≡ id ∷ []
    → (row : Props) × (xs ≡ row ∷ []) × (element_of row ≡ id)
map_single [] id e = cc
map_single (x ∷ []) id e = (x, refl, cc)
map_single (x ∷ y ∷ xs) id e = cc

as_instances_ok : (r : Reply) {is : List Props} → as_instances r ≡ ok is → r ≡ instances is
as_instances_ok (instances is) e = ap instances (cc)
as_instances_ok _ e = cc

abbrev pub rows_request : Request
rows_request = enumerate (class_uri "Msvm_AffectedJobElement")

-- The host's only row for an element that the job created is one of a checkpoint.
pub record Resolved (host : Host) (job_ref : Bytes) (h : List Request) (id : Bytes)
    (h' : List Request) : Type 0 where
  pub given : is_empty job_ref ≡ false
  pub rows : List Props
  pub answered : host h rows_request ≡ instances rows
  pub requested : rows_request ∷ h ≡ h'
  pub row : Props
  pub only : Only (is_created (trim_space job_ref)) row rows
  pub named : element_of row ≡ id
  pub checkpoint : has_prefix id snapshot_instance_id_prefix ≡ true

resolve_rows :
    (host : Host) (job_ref : Bytes) (h : List Request) (rows : List Props) {id : Bytes}
    {h' : List Request}
    → is_empty job_ref ≡ false
    → host h rows_request ≡ instances rows
    → rows_request ∷ h ≡ h'
    → the_checkpoint (created_elements (trim_space job_ref) rows) ≡ ok id
    → Resolved host job_ref h id h'
resolve_rows host job_ref h rows {id} given answered requested e =
    let (ids, prefix) = the_checkpoint_ok (created_elements (trim_space job_ref) rows) id e in
    let (row, single, named) =
      map_single _ id (sym (created_elements-filter (trim_space job_ref) rows) ∙ ids) in
    record {
      given = given;
      rows = rows;
      answered = answered;
      requested = requested;
      row = row;
      only = (filter-Only (is_created (trim_space job_ref)) row rows).0 single;
      named = named;
      checkpoint = prefix;
    }

resolve_only_if :
    (host : Host) (job_ref : Bytes) (h : List Request) {id : Bytes} {h' : List Request}
    → resolve_created_checkpoint host job_ref h ≡ (ok id, h')
    → Resolved host job_ref h id h'
unfolding resolve_created_checkpoint enumerate_all
resolve_only_if host job_ref h e = elim (Bool-cases (is_empty job_ref)) [
  | inl empty ↦ (let e' = rw empty at e in cc)
  | inr given ↦ elim (Result-cases (as_instances (host h rows_request))) [
    | inr (x, bad) ↦ (let e' = rw bad at (rw given at e) in cc)
    | inl (rows, good) ↦
        (let e' = rw good at (rw given at e) in
          resolve_rows host job_ref h rows given (as_instances_ok _ good) (cc) (cc))
  ]
]

resolve_if :
    (host : Host) (job_ref : Bytes) (h : List Request) {id : Bytes} {h' : List Request}
    → Resolved host job_ref h id h'
    → resolve_created_checkpoint host job_ref h ≡ (ok id, h')
unfolding resolve_created_checkpoint enumerate_all
resolve_if host job_ref h {id} {h'} r = rw r.given (
    rw r.answered (
      rw (created_elements-filter (trim_space job_ref) r.rows) (
        rw ((filter-Only (is_created (trim_space job_ref)) r.row r.rows).1 r.only) (
          rw r.named (rw (ok_the_checkpoint id r.checkpoint) (ap (λ h. (ok id, h)) r.requested))))))

-- `ResolveCreatedCheckpoint` returns an InstanceID exactly if the reference of the job is not empty,
-- the host lists its job elements, exactly one of the rows names the trimmed job, has the effect
-- Create and an element that is not empty, and that element is the result and begins with
-- "Microsoft:". The listing is the only request.
pub resolve_created_checkpoint-Resolved :
    (host : Host) (job_ref : Bytes) (h : List Request) (id : Bytes) (h' : List Request)
    → (resolve_created_checkpoint host job_ref h ≡ (ok id, h')) ↔ Resolved host job_ref h id h'
resolve_created_checkpoint-Resolved host job_ref h id h' =
    (resolve_only_if host job_ref h, resolve_if host job_ref h)
