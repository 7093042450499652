-- ===== src/Commands/Deleted.antt =====
-- What the deleting commands of pkg/deployment/commands delete, and when they delete nothing.
use text.Mathlib.Text.{◌==◌ as str_eq}
use kluctl.Prelude.{
  String, ◌≡◌, ◌≢◌, refl, sym, subst, ◌⊎◌, inl, inr, Bool, true, false, ◌&&◌, not, Option, none,
  some, List, [], ◌∷◌, In, here, there, In-append, In-select, select, contains, Result, ok, err,
  panicked, ◌>>=◌, >>=-eq-ok, if◌then◌else◌, string_eq,
}
use kluctl.Types.ObjectRef.{ObjectRef}
use kluctl.Utils.Inclusion.{Inclusion, has_type}
use kluctl.K8s.{K8sCluster, ApiError, delete_single_object}
use kluctl.Deployment.Errors.{DeploymentErrorsAndWarnings}
use kluctl.Deployment.Delete.{
  Deletion, object_ref_for_exclusion, is_namespace, names, record_deletion, delete_one, delete_wave,
  delete_objects, find_objects_for_delete,
}
use kluctl.Deployment.Delete.Guards.{IsOurs, exclusion}
use kluctl.Deployment.Delete.Laws.{find_objects_for_delete-IsOurs}
use kluctl.Deployment.Remote.{RemoteObjectUtils, get_filtered_remote_objects}
use kluctl.Commands.{
  Surroundings, TargetContext, Outcome, or_error, confirmed, discriminator_of, inclusion_of,
  find_orphan_objects, gather, finish, plan_prune, run_prune, plan_delete, run_delete,
}

module _ {Obj World : Type 0} (k : K8sCluster Obj World) (sprintf : String → String) where
  record_deletion-In :
      (ref r : ObjectRef) (e : Option ApiError) (s : Deletion World)
      → In r (record_deletion k sprintf ref e s).deleted
      → In r s.deleted ⊎ (r ≡ ref)
  record_deletion-In ref r (some e) s i = inl i
  record_deletion-In ref r none s i = elim (In-append r s.deleted (ref ∷ []) i) [
    | inl old ↦ inl old
    | inr new ↦ inr (In-one r ref new)
  ]
    where
      In-one : (a b : ObjectRef) → In a (b ∷ []) → a ≡ b
      In-one _ b here = refl
      In-one a b (there j) = elim j [ ]

  delete_wave-In :
      (do_wait : Bool) (refs : List ObjectRef) (s : Deletion World) (r : ObjectRef)
      → In r (delete_wave k sprintf do_wait refs s).deleted
      → In r s.deleted ⊎ In r refs
  unfolding delete_wave delete_one
  delete_wave-In do_wait [] s r i = inl i
  delete_wave-In do_wait (ref ∷ refs) s r i =
      let x = delete_single_object k false (not do_wait) true ref s.world in
      elim (delete_wave-In do_wait refs (delete_one k sprintf do_wait ref s) r i) [
        | inr later ↦ inr (there later)
        | inl now ↦ elim (record_deletion-In ref r x.error (record s { world = x.world }) now) [
          | inl old ↦ inl old
          | inr same ↦ inr (subst (λ y. In y (ref ∷ refs)) (sym same) here)
        ]
      ]

  -- Nothing is deleted but what was asked for.
  delete_objects-In :
      (schedule : List ObjectRef → List ObjectRef)
      → ((l : List ObjectRef) (r : ObjectRef) → In r (schedule l) → In r l)
      → (refs : List ObjectRef) (dew : DeploymentErrorsAndWarnings) (do_wait : Bool) (w : World)
        (r : ObjectRef)
      → In r (delete_objects k sprintf schedule refs dew do_wait w).deleted
      → In r refs
  unfolding delete_objects
  delete_objects-In schedule from refs dew do_wait w r i =
      let namespaces = select is_namespace refs in
      let inner : ObjectRef → Bool =
        λ ref. not (is_namespace ref) && not (contains (names namespaces) ref.namespace) in
      let start : Deletion World = record { deleted = []; dew = dew; world = w } in
      let first = delete_wave k sprintf do_wait (schedule namespaces) start in
      elim (delete_wave-In do_wait (schedule (select inner refs)) first r i) [
        | inr second ↦ (In-select inner r refs (from _ r second)).0
        | inl j ↦ elim (delete_wave-In do_wait (schedule namespaces) start r j) [
          | inl none_yet ↦ elim none_yet [ ]
          | inr one ↦ (In-select is_namespace r refs (from _ r one)).0
        ]
      ]

module _ {Obj World : Type 0} (env : Surroundings Obj World) where
  open env use {objects, k, remote, is_namespaced, discovery, sprintf, schedule}

  confirmed-ok :
      (confirm : Option (List ObjectRef → Option String)) (refs refs' : List ObjectRef)
      (ru ru' : RemoteObjectUtils Obj)
      → confirmed confirm refs ru ≡ ok (refs', ru')
      → (refs ≡ refs') × (ru ≡ ru')
  confirmed-ok none refs refs' ru ru' h = (cc, cc)
  confirmed-ok (some confirm) refs refs' ru ru' h = answered (confirm refs) h
    where
      answered :
          (a : Option String)
          → or_error {A = List ObjectRef × RemoteObjectUtils Obj} (a, (refs, ru)) ≡ ok (refs', ru')
          → (refs ≡ refs') × (ru ≡ ru')
      answered none q = (cc, cc)
      answered (some e) q = cc

  -- The references of a plan are those that the search in the gathered objects returned.
  planned :
      (find : RemoteObjectUtils Obj → Result (List ObjectRef))
      (confirm : Option (List ObjectRef → Option String)) (d : String) (w : World)
      (refs : List ObjectRef) (ru : RemoteObjectUtils Obj)
      → (gather env d w >>= λ u. find u >>= λ l. confirmed confirm l u) ≡ ok (refs, ru)
      → find ru ≡ ok refs
  planned find confirm d w refs ru h =
      let (u, _, h') = >>=-eq-ok (gather env d w) _ h in
      let (l, found, h'') = >>=-eq-ok (find u) _ h' in
      let same = confirmed-ok confirm l refs u ru h'' in
      subst (λ x. find x ≡ ok refs) same.1 (subst (λ x. find u ≡ ok x) same.0 found)

  if-ok :
      {A : Type 0} (b : Bool) (e : String) (r : Result A) (a : A)
      → (if b then err e else r) ≡ ok a
      → r ≡ ok a
  if-ok true e r a h = cc
  if-ok false e r a h = h

  -- An object that a deletion may take, of those that the inclusion leaves.
  abbrev pub Deletable :
      Option Inclusion → List ObjectRef → World → RemoteObjectUtils Obj → ObjectRef → Type 0
  Deletable inclusion excluded w ru ref =
      (x : Obj) × In x (get_filtered_remote_objects (remote w) inclusion ru)
      × (objects.ref_of x ≡ ref)
      × IsOurs objects is_namespaced (has_type inclusion "tags") x
      × ((r : ObjectRef)
          → In r excluded
          → object_ref_for_exclusion is_namespaced r ≢ exclusion objects is_namespaced x)

  finish-ok :
      (do_wait : Bool) (r : Result (List ObjectRef × RemoteObjectUtils Obj)) (w v : World)
      (out : Outcome Obj)
      → finish env do_wait r w ≡ (ok out, v)
      → (refs : List ObjectRef) × (ru : RemoteObjectUtils Obj) × (r ≡ ok (refs, ru))
        × ((record {
          deleted = (delete_objects k sprintf schedule refs ru.dew do_wait w).deleted;
          ru = record ru { dew = (delete_objects k sprintf schedule refs ru.dew do_wait w).dew };
        })
            ≡ out)
  finish-ok do_wait (ok (refs, ru)) w v out h = (refs, ru, refl, cc)
  finish-ok do_wait (err e) w v out h = cc
  finish-ok do_wait panicked w v out h = cc

  deleted-Deletable :
      ((l : List ObjectRef) (r : ObjectRef) → In r (schedule l) → In r l)
      → (inclusion : Option Inclusion) (excluded : List ObjectRef) (do_wait : Bool)
        (plan : Result (List ObjectRef × RemoteObjectUtils Obj)) (w v : World) (out : Outcome Obj)
        (ref : ObjectRef)
      → ((refs : List ObjectRef) (ru : RemoteObjectUtils Obj)
          → plan ≡ ok (refs, ru)
          → find_objects_for_delete objects is_namespaced discovery
              (get_filtered_remote_objects (remote w) inclusion ru)
              (has_type inclusion "tags")
              excluded
            ≡ ok refs)
      → finish env do_wait plan w ≡ (ok out, v)
      → In ref out.deleted
      → Deletable inclusion excluded w out.ru ref
  unfolding get_filtered_remote_objects
  deleted-Deletable from inclusion excluded do_wait plan w v out ref find h i =
      let (refs, ru, p, same) = finish-ok do_wait plan w v out h in
      let d = delete_objects k sprintf schedule refs ru.dew do_wait w in
      let j : In ref d.deleted = subst (λ o. In ref o.deleted) (sym same) i in
      subst (λ o. Deletable inclusion excluded w o.ru ref) same
        (find_objects_for_delete-IsOurs objects is_namespaced discovery
          (get_filtered_remote_objects (remote w) inclusion ru) (has_type inclusion "tags") excluded
          refs ref (find refs ru p)
          (delete_objects-In k sprintf schedule from refs ru.dew do_wait w ref j))

-- If the goroutines of a deletion are only those of the given references, then everything that a
-- prune with a target reports as deleted is the reference of a remote object that the inclusion of
-- the target leaves, that kluctl manages, that no object owns, that the annotations which always
-- skip a deletion do not keep, that kluctl.io/skip-delete-if-tags does not keep if the inclusion
-- has entries of the type tags, and that is not the same up to the version as an object of the
-- deployment.
pub run_prune-Deletable :
    {Obj World : Type 0} (env : Surroundings Obj World)
    → ((l : List ObjectRef) (r : ObjectRef) → In r (env.schedule l) → In r l)
    → (discriminator : String) (confirm : Option (List ObjectRef → Option String))
      (t : TargetContext) (do_wait : Bool) (w v : World) (out : Outcome Obj) (ref : ObjectRef)
    → run_prune env discriminator confirm (some t) do_wait w ≡ (ok out, v)
    → In ref out.deleted
    → Deletable env t.inclusion t.local_object_refs w out.ru ref
unfolding run_prune plan_prune find_orphan_objects
run_prune-Deletable env from discriminator confirm t do_wait w v out ref h i =
    let d = discriminator_of discriminator (some t) in
    deleted-Deletable env from t.inclusion t.local_object_refs do_wait
      (plan_prune env discriminator confirm (some t) w) w v out ref
      (λ refs ru p.
        planned env (find_orphan_objects env t w) confirm d w refs ru
          (if-ok env (str_eq d "") _ _ (refs, ru) p))
      h i

-- If the goroutines of a deletion are only those of the given references, then everything that the
-- delete command reports as deleted is the reference of a remote object that the inclusion leaves,
-- that kluctl manages, that no object owns, that the annotations which always skip a deletion do
-- not keep, and that kluctl.io/skip-delete-if-tags does not keep if the inclusion has entries of
-- the type tags.
pub run_delete-Deletable :
    {Obj World : Type 0} (env : Surroundings Obj World)
    → ((l : List ObjectRef) (r : ObjectRef) → In r (env.schedule l) → In r l)
    → (discriminator : String) (inclusion : Option Inclusion)
      (confirm : Option (List ObjectRef → Option String)) (target : Option TargetContext)
      (do_wait : Bool) (w v : World) (out : Outcome Obj) (ref : ObjectRef)
    → run_delete env discriminator inclusion confirm target do_wait w ≡ (ok out, v)
    → In ref out.deleted
    → Deletable env (inclusion_of inclusion target) [] w out.ru ref
unfolding run_delete plan_delete
run_delete-Deletable env from discriminator inclusion confirm target do_wait w v out ref h i =
    let d = discriminator_of discriminator target in
    let inc = inclusion_of inclusion target in
    deleted-Deletable env from inc [] do_wait
      (plan_delete env discriminator inclusion confirm target w) w v out ref
      (λ refs ru p.
        planned env
          (λ u.
            find_objects_for_delete env.objects env.is_namespaced env.discovery
              (get_filtered_remote_objects (env.remote w) inc u) (has_type inc "tags") [])
          confirm d w refs ru (if-ok env (str_eq d "") _ _ (refs, ru) p))
      h i
