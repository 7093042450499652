-- ===== src/Deployment/Apply/Deletions.antt =====
-- pkg/deployment/utils/apply_utils.go: what `DeleteObject` reports.
use kluctl.Prelude.{
  ◌≡◌, refl, Bool, true, false, not, Option, none, some, List, ◌⊎◌, inl, inr, contains,
  contains-add, if◌then◌else◌, arith, beq_refl,
}
use kluctl.Types.ObjectRef.{ObjectRef, ref_eq}
use kluctl.K8s.{ApiError, is_not_found, delete_single_object}
use kluctl.Deployment.Errors.{had_error}
use kluctl.Deployment.Errors.Laws.{had_error-add_error}
use kluctl.Deployment.Apply.{
  Env, ApplyUtil, handle_error, after_request, mark_deleted, was_applied, after_delete,
  delete_object,
}

abbrev pub NotFound : Option ApiError → Type 0
NotFound none = ⊥
NotFound (some e) = is_not_found e ≡ true

module _ {Obj World : Type 0} where
  abbrev pub deleted_of : Bool → ApplyUtil Obj World → List ObjectRef
  deleted_of true a = a.deleted_hook_objects
  deleted_of false a = a.deleted_objects

  -- A deletion is in the results; where there was none, an error is, or there was nothing to delete.
  abbrev pub Reported : ObjectRef → Bool → Option ApiError → Bool × ApplyUtil Obj World → Type 0
  Reported ref hook e (true, a) = contains (deleted_of hook a) ref ≡ true
  Reported ref hook e (false, a) = (had_error ref a.dew ≡ true) ⊎ NotFound e

  if-Reported :
      (ref : ObjectRef) (hook : Bool) (e : Option ApiError) (b : Bool)
      (x y : Bool × ApplyUtil Obj World)
      → (b ≡ true → Reported ref hook e x)
      → (b ≡ false → Reported ref hook e y)
      → Reported ref hook e (if b then x else y)
  if-Reported ref hook e true x y f g = f refl
  if-Reported ref hook e false x y f g = g refl

module _ {Obj World : Type 0} (env : Env Obj World) where
  mark_deleted-contains :
      (ref : ObjectRef) (hook : Bool) (a : ApplyUtil Obj World)
      → contains (deleted_of hook (mark_deleted env ref hook a)) ref ≡ true
  unfolding mark_deleted
  mark_deleted-contains ref true a =
      ground (arith, contains-add ref ref a.deleted_hook_objects, beq_refl ref)
  mark_deleted-contains ref false a =
      ground (arith, contains-add ref ref a.deleted_objects, beq_refl ref)

  handle_error-reports :
      (ref : ObjectRef) (e : ApiError) (a : ApplyUtil Obj World)
      → had_error ref (handle_error env ref e a).dew ≡ true
  unfolding handle_error
  handle_error-reports ref e a =
      ground (arith, had_error-add_error ref ref e.message a.dew, beq_refl ref)

  after_delete-Reported :
      (ref : ObjectRef) (hook : Bool) (e : Option ApiError) (a : ApplyUtil Obj World)
      → Reported ref hook e (after_delete env ref hook e a)
  unfolding after_delete
  after_delete-Reported ref hook none a = mark_deleted-contains ref hook a
  after_delete-Reported ref hook (some e) a =
      if-Reported ref hook (some e) (not (is_not_found e)) _ _
        (λ _. inl (handle_error-reports ref e a))
        (λ g.
          let missing : is_not_found e ≡ true = ground (arith, g) in
          if-Reported ref hook (some e) (not env.o.dry_run) _ _ (λ _. inr missing)
            (λ _.
              if-Reported ref hook (some e) (not (was_applied env ref hook a)) _ _
                (λ _. inr missing) (λ _. mark_deleted-contains ref hook a)))

-- When `DeleteObject` returns true, the object is in the set of deleted objects, or deleted hooks for a
-- hook; when it returns false, an error of the object has been recorded, or the server did not find it.
pub delete_object-Reported :
    {Obj World : Type 0} (env : Env Obj World) (ref : ObjectRef) (hook : Bool)
    (a : ApplyUtil Obj World)
    → Reported ref hook
        (delete_single_object env.k env.o.dry_run false false ref a.world).error
        (delete_object env ref hook a)
unfolding delete_object
delete_object-Reported env ref hook a =
    let r = delete_single_object env.k env.o.dry_run false false ref a.world in
    after_delete-Reported env ref hook r.error (after_request env ref r a)
