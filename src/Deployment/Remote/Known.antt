-- ===== src/Deployment/Remote/Known.antt =====
-- What pkg/deployment/utils/remote_objects_utils.go finds out of the objects that it is asked for.
use kluctl.Prelude.{
  String, ◌≡◌, refl, subst, ◌⊎◌, inl, inr, Bool, true, false, ◌||◌, Option, none, some, List, [],
  ◌∷◌, has, has-insert, add, contains, contains-add, contains-cons_cases, ◌+◌, arith, if◌then◌else◌,
  string_eq, contains-nil,
}
use kluctl.Types.ObjectRef.{ObjectRef, ref_eq, ref_beq_iff}
use kluctl.K8s.{ApiError}
use kluctl.Deployment.Errors.{DeploymentErrorsAndWarnings, add_warning, add_api_warnings, had_error}
use kluctl.Deployment.Errors.Laws.{had_error-add_error}
use kluctl.Deployment.Remote.{
  Remote, RemoteObjectUtils, Gathering, Single, read_object, read_error, is_permission, is_absent,
  put_object, warned, with_error, missed, took, get_missing, get_all_missing, not_found_refs,
  gathering, missing_warning, get_missing_objects, and_missing, used_gks, namespace_kind,
  get_all_by_discriminator, update_remote_objects,
}
use kluctl.Deployment.Remote.Stable.{
  Stable, get_all_missing-kept, finish_gathering-kept, took_namespaces-kept,
  get_missing_objects-kept,
}

-- An object was read, or an error was recorded for it.
unfoldable pub Known : {Obj : Type 0} → ObjectRef → RemoteObjectUtils Obj → Type 0
Known ref u = has ref u.remote_objects || had_error ref u.dew ≡ true

-- The cluster says that there is no such object, or that it may not be read.
unfoldable pub Refused : {Obj : Type 0} → Remote Obj → ObjectRef → Type 0
Refused k ref =
    (e : ApiError) × ((k.get_single_object ref).1 ≡ read_error e)
    × (is_absent e || is_permission e ≡ true)

had_error-add_api_warnings :
    (sprintf : String → String) (j ref : ObjectRef) (ws : List String)
    (dew : DeploymentErrorsAndWarnings)
    → had_error j (add_api_warnings sprintf ref ws dew) ≡ had_error j dew
unfolding add_api_warnings add_warning had_error
had_error-add_api_warnings sprintf j ref [] dew = refl
had_error-add_api_warnings sprintf j ref (w ∷ ws) dew =
    had_error-add_api_warnings sprintf j ref ws (add_warning ref (sprintf w) dew)

module _ {Obj : Type 0} (k : Remote Obj) where
  Known-Stable : (ref : ObjectRef) → Stable k (Known ref)
  unfolding Known put_object add_warning had_error
  Known-Stable ref = record {
    put = λ o u h. ground (arith, has-insert (k.ref_of o) ref o u.remote_objects);
    warn_api = λ r ws u h. ground (arith, had_error-add_api_warnings k.sprintf ref r ws u.dew);
    warn = λ r message u h. h;
    fail = λ r message u h. ground (arith, had_error-add_error r ref message u.dew);
    name = λ m u h. h;
  }

  if-Known :
      (ref : ObjectRef) (b : Bool) (s t : Gathering Obj)
      → ((b ≡ true) ⊎ Known ref s.u)
      → Known ref t.u
      → (b ≡ true) ⊎ Known ref (if b then s else t).u
  if-Known ref true s t h i = inl refl
  if-Known ref false s t h i = inr i

  missed-Known :
      (ref : ObjectRef) (s : Gathering Obj) (e : ApiError)
      → (is_absent e || is_permission e ≡ true) ⊎ Known ref (missed k ref s e).u
  unfolding Known
  missed-Known ref s e = by_tests (is_absent e) (is_permission e)
    where
      by_tests :
          (absent permission : Bool)
          → (absent || permission ≡ true)
            ⊎ (let t : Gathering Obj =
                  if absent
                  then s
                  else if permission
                  then record s { permission_err_count = s.permission_err_count + 1 }
                  else record s {
                    u = with_error k ref e.message s.u;
                    err_count = s.err_count + 1;
                  } in
                has ref t.u.remote_objects || had_error ref t.u.dew ≡ true)
      by_tests true permission = inl refl
      by_tests false true = inl refl
      by_tests false false =
          inr ground (arith, had_error-add_error ref ref e.message s.u.dew, ref_beq_iff ref ref)

  -- The answer for a reference is about that reference.
  abbrev pub Honest : Type 0
  Honest =
      (ref : ObjectRef) (o : Obj) → (k.get_single_object ref).1 ≡ read_object o → k.ref_of o ≡ ref

  took-Known :
      (ref : ObjectRef) (s : Gathering Obj) (r : Single Obj)
      → Honest
      → (k.get_single_object ref).1 ≡ r
      → Refused k ref ⊎ Known ref (took k ref s r).u
  unfolding Known Refused put_object
  took-Known ref s (read_object o) honest e = inr ground (
    arith,
    has-insert (k.ref_of o) ref o s.u.remote_objects,
    honest ref o e,
    ref_beq_iff (k.ref_of o) ref,
  )
  took-Known ref s (read_error x) honest e = elim (missed-Known ref s x) [
    | inl h ↦ inl (x, e, h)
    | inr h ↦ inr h
  ]

  get_missing-Known :
      (ref : ObjectRef) (s : Gathering Obj)
      → Honest
      → Refused k ref ⊎ Known ref (get_missing k ref s).u
  unfolding get_missing
  get_missing-Known ref s honest =
      took-Known ref (record s { u = warned k ref (k.get_single_object ref).0 s.u })
        (k.get_single_object ref).1 honest refl

  get_all_missing-Known :
      (refs : List ObjectRef) (ref : ObjectRef) (s : Gathering Obj)
      → Honest
      → contains refs ref ≡ true
      → Refused k ref ⊎ Known ref (get_all_missing k refs s).u
  unfolding get_all_missing
  get_all_missing-Known [] ref s honest h = cc (contains-nil ref, h)
  get_all_missing-Known (r ∷ refs) ref s honest h = elim (contains-cons_cases r ref refs h) [
    | inr later ↦ get_all_missing-Known refs ref (get_missing k r s) honest later
    | inl same ↦ elim (get_missing-Known r s honest) [
      | inl refused ↦ inl (subst (Refused k) same refused)
      | inr known ↦ inr (
          get_all_missing-kept (Known-Stable ref) refs (get_missing k r s)
            (subst (λ x. Known x (get_missing k r s).u) same known))
    ]
  ]

  not_found_refs-contains :
      (u : RemoteObjectUtils Obj) (refs : List ObjectRef) (ref : ObjectRef)
      → contains refs ref ≡ true
      → (has ref u.remote_objects ≡ true) ⊎ (contains (not_found_refs k u refs) ref ≡ true)
  unfolding not_found_refs
  not_found_refs-contains u [] ref h = cc (contains-nil ref, h)
  not_found_refs-contains u (r ∷ refs) ref h = elim (contains-cons_cases r ref refs h) [
    | inl same ↦ at_head (has r u.remote_objects) refl same
    | inr later ↦ elim (not_found_refs-contains u refs ref later) [
      | inl old ↦ inl old
      | inr rest ↦ inr (in_tail (has r u.remote_objects) rest)
    ]
  ]
    where
      at_head :
          (b : Bool)
          → has r u.remote_objects ≡ b
          → r ≡ ref
          → (has ref u.remote_objects ≡ true)
            ⊎ (contains (if b then not_found_refs k u refs else add r (not_found_refs k u refs)) ref
                ≡ true)
      at_head true e same = inl (subst (λ x. has x u.remote_objects ≡ true) same e)
      at_head false e same =
          inr ground (arith, contains-add r ref (not_found_refs k u refs), ref_beq_iff r ref)

      in_tail :
          (b : Bool)
          → contains (not_found_refs k u refs) ref ≡ true
          → contains (if b then not_found_refs k u refs else add r (not_found_refs k u refs)) ref
            ≡ true
      in_tail true h = h
      in_tail false h = ground (arith, contains-add r ref (not_found_refs k u refs))

  or-true : (a b : Bool) → a ≡ true → a || b ≡ true
  or-true a b h = ground arith

  module _
      (keeps : (l : List ObjectRef) (ref : ObjectRef)
        → contains l ref ≡ true
        → contains (k.schedule l) ref ≡ true)
      (honest : Honest) where
    get_missing_objects-Known :
        (refs : List ObjectRef) (u : RemoteObjectUtils Obj) (ref : ObjectRef)
        → contains refs ref ≡ true
        → Refused k ref ⊎ Known ref (get_missing_objects k refs u)
    unfolding Known get_missing_objects
    get_missing_objects-Known refs u ref h = elim (not_found_refs-contains u refs ref h) [
      | inl old ↦ inr (
          get_missing_objects-kept (Known-Stable ref) refs u
            (or-true (has ref u.remote_objects) (had_error ref u.dew) old))
      | inr missing ↦
          let order = k.schedule (not_found_refs k u refs) in
          elim (get_all_missing-Known order ref (gathering k u) honest (keeps _ ref missing)) [
            | inl refused ↦ inl refused
            | inr known ↦ inr (
                finish_gathering-kept (Known-Stable ref) (missing_warning k)
                  (get_all_missing k order (gathering k u)) known)
          ]
    ]

    and_missing-Known :
        (refs : List ObjectRef) (r : Option String × RemoteObjectUtils Obj) (ref : ObjectRef)
        → contains refs ref ≡ true
        → (and_missing k refs r).0 ≡ none
        → Refused k ref ⊎ Known ref (and_missing k refs r).1
    and_missing-Known refs (some e, u) ref h q = cc
    and_missing-Known refs (none, u) ref h q = elim (get_missing_objects-Known refs u ref h) [
      | inl refused ↦ inl refused
      | inr known ↦
          let l = k.list_objects (namespace_kind k) [] in
          inr (
            took_namespaces-kept (Known-Stable ref) l.objects (get_missing_objects k refs u) l.error
              known)
    ]

-- If every goroutine runs, and the cluster answers a request for an object with that object, then
-- after UpdateRemoteObjects without an error each given reference is one of a remote object, or
-- has an error, or the cluster said of it that there is no such object or that it may not be read.
pub update_remote_objects-Known :
    {Obj : Type 0} (k : Remote Obj)
    → ((l : List ObjectRef) (ref : ObjectRef)
        → contains l ref ≡ true
        → contains (k.schedule l) ref ≡ true)
    → Honest k
    → (discriminator : Option String) (refs : List ObjectRef) (only_used_gks : Bool)
      (u : RemoteObjectUtils Obj) (ref : ObjectRef)
    → (update_remote_objects k discriminator refs only_used_gks u).0 ≡ none
    → contains refs ref ≡ true
    → Refused k ref ⊎ Known ref (update_remote_objects k discriminator refs only_used_gks u).1
unfolding update_remote_objects
update_remote_objects-Known k keeps honest discriminator refs only_used_gks u ref q h =
    and_missing-Known k keeps honest refs
      (get_all_by_discriminator k discriminator (used_gks k only_used_gks refs) u) ref h q
