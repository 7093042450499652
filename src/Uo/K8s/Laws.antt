-- ===== src/Uo/K8s/Laws.antt =====
-- Setting one part of the identity of an object changes that part of its reference alone.
use text.Mathlib.Text.{◌==◌ as str_eq}
use kluctl.Prelude.{
  String, false, beq-ne, string_eq, ◌≡◌, ◌≢◌, refl, sym, ap, Option, none, some, [], ◌∷◌, Result,
  ok, err, panicked, ◌>>=◌, >>=-eq-ok, arith, eq_iff, Result-cases, inl, inr,
}
use kluctl.Types.ObjectRef.{ObjectRef, GroupVersionKind}
use kluctl.Uo.Value.{Value, string}
use kluctl.Uo.Child.{name, KeyPath}
use kluctl.Uo.Nested.{UnstructuredObject, get_nested_field, set_nested_field}
use kluctl.Uo.Nested.Laws.{get-set_nested_field}
use kluctl.Uo.Nested.Frame.{
  Diverge, here, below, Names, set_nested_field-frame, set_nested_field-absent,
}
use kluctl.Uo.Typed.{get_nested_string}
use kluctl.Uo.K8s.{
  Schema, kind_path, api_version_path, metadata, string_or_empty, edited, get_k8s_gvk, get_k8s_name,
  set_k8s_name, get_k8s_namespace, set_k8s_namespace, get_k8s_ref,
}

-- A successful edit returned the edited object.
edited-ok :
    (e : UnstructuredObject × Result (Unit {0})) (o' : UnstructuredObject)
    → edited e ≡ ok o'
    → (e.0 ≡ o') × (e.1 ≡ ok tt)
unfolding edited
edited-ok (o, ok t) o' h = (cc, refl)
edited-ok (o, err e) o' h = cc
edited-ok (o, panicked) o' h = cc

module _ (o : UnstructuredObject) (ks js : KeyPath) (v : Value) (apart : Diverge ks js)
    (names : Names js) where
  -- What was found, or not found, at a path of names stays so under an edit elsewhere.
  found-set :
      (r : Option Value)
      → get_nested_field o js ≡ ok r
      → get_nested_field (set_nested_field o v ks).0 js ≡ ok r
  found-set none h = set_nested_field-absent o v ks js apart names h
  found-set (some x) h = set_nested_field-frame o v x ks js apart h

  string_or_empty-set :
      (s : String)
      → string_or_empty (get_nested_string o js) ≡ ok s
      → string_or_empty (get_nested_string (set_nested_field o v ks).0 js) ≡ ok s
  unfolding get_nested_string string_or_empty
  string_or_empty-set s h = elim (Result-cases (get_nested_field o js)) [
    | inl (r, e) ↦ rw (found-set r e) (rw e at h)
    | inr (inl (t, e)) ↦ let h' = rw e at h in cc
    | inr (inr e) ↦ let h' = rw e at h in cc
  ]

string_or_empty-get :
    (o : UnstructuredObject) (js : KeyPath) (s : String)
    → get_nested_field o js ≡ ok (some (string s))
    → string_or_empty (get_nested_string o js) ≡ ok s
unfolding get_nested_string string_or_empty
string_or_empty-get o js s h = rw h

name_ne : (a b : String) → str_eq a b ≡ false → name a ≢ name b
name_ne a b h e = ground (arith, eq_iff a b)

-- Paths to two parts of an object's identity.
kind_apart : (f : String) → Diverge (metadata f) kind_path
kind_apart f = here (name_ne "metadata" "kind" refl)

api_version_apart : (f : String) → Diverge (metadata f) api_version_path
api_version_apart f = here (name_ne "metadata" "apiVersion" refl)

metadata_apart : (f g : String) → str_eq f g ≡ false → Diverge (metadata f) (metadata g)
metadata_apart f g h = below (here (name_ne f g h))

module _ (schema : Schema) (o : UnstructuredObject) (f : String) (v : Value) where
  -- An edit under `metadata` keeps the group, the version and the kind.
  get_k8s_gvk-set :
      (g : GroupVersionKind)
      → get_k8s_gvk schema o ≡ ok g
      → get_k8s_gvk schema (set_nested_field o v (metadata f)).0 ≡ ok g
  unfolding get_k8s_gvk
  get_k8s_gvk-set g h =
      let (k, ek, h') = >>=-eq-ok _ _ h in
      let (a, ea, h'') = >>=-eq-ok _ _ h' in
      rw
        (
          string_or_empty-set o (metadata f) kind_path v (kind_apart f) tt k ek,
          string_or_empty-set o (metadata f) api_version_path v (api_version_apart f) tt a ea,
        )
        h''

abbrev ref_of : GroupVersionKind → String → String → ObjectRef
ref_of g n ns = record {
  group = g.group;
  version = g.version;
  kind = g.kind;
  name = n;
  namespace = ns;
}

-- A reference that was read has been put together from its parts, and the other way round.
record Parts (schema : Schema) (o : UnstructuredObject) (r : ObjectRef) : Type 0 where
  gvk : GroupVersionKind
  gvk_found : get_k8s_gvk schema o ≡ ok gvk
  name_found : string_or_empty (get_nested_string o (metadata "name")) ≡ ok r.name
  namespace_found : string_or_empty (get_nested_string o (metadata "namespace")) ≡ ok r.namespace
  together : r ≡ ref_of gvk r.name r.namespace

module _ (schema : Schema) (o : UnstructuredObject) (r : ObjectRef) where
  get_k8s_ref-Parts : get_k8s_ref schema o ≡ ok r → Parts schema o r
  unfolding get_k8s_ref get_k8s_name get_k8s_namespace
  get_k8s_ref-Parts = go (get_k8s_gvk schema o) _ _ refl refl refl
    where
      go :
          (a : Result GroupVersionKind) (b c : Result String)
          → get_k8s_gvk schema o ≡ a
          → string_or_empty (get_nested_string o (metadata "name")) ≡ b
          → string_or_empty (get_nested_string o (metadata "namespace")) ≡ c
          → (a >>= λ g. b >>= λ n. c >>= λ ns. ok (ref_of g n ns)) ≡ ok r
          → Parts schema o r
      go (ok g) (ok n) (ok ns) ea eb ec h = record {
        gvk = g;
        gvk_found = ea;
        name_found = cc;
        namespace_found = cc;
        together = cc;
      }
      go (ok g) (ok n) (err t) ea eb ec h = cc
      go (ok g) (ok n) panicked ea eb ec h = cc
      go (ok g) (err t) c ea eb ec h = cc
      go (ok g) panicked c ea eb ec h = cc
      go (err t) b c ea eb ec h = cc
      go panicked b c ea eb ec h = cc

  Parts-get_k8s_ref : Parts schema o r → get_k8s_ref schema o ≡ ok r
  unfolding get_k8s_ref get_k8s_name get_k8s_namespace
  Parts-get_k8s_ref p = rw (p.gvk_found, p.name_found, p.namespace_found) (ap ok (sym p.together))

module _ (schema : Schema) (o o' : UnstructuredObject) (r : ObjectRef) where
  -- `SetK8sName` gives the object its new name in `GetK8sRef`, and the rest of the reference stays.
  pub get_k8s_ref-set_k8s_name :
      (n : String)
      → get_k8s_ref schema o ≡ ok r
      → set_k8s_name n o ≡ ok o'
      → get_k8s_ref schema o' ≡ ok (record r { name = n })
  unfolding set_k8s_name
  get_k8s_ref-set_k8s_name n h e =
      let p = get_k8s_ref-Parts schema o r h in
      let (done, good) = edited-ok _ o' e in
      rw (← done) (
        Parts-get_k8s_ref schema _ (record r { name = n })
          (record {
            gvk = p.gvk;
            gvk_found = get_k8s_gvk-set schema o "name" (string n) p.gvk p.gvk_found;
            name_found =
                string_or_empty-get _ (metadata "name") n
                  (get-set_nested_field o (string n) (name "metadata") (name "name" ∷ []) good);
            namespace_found =
                string_or_empty-set o (metadata "name") (metadata "namespace") (string n)
                  (metadata_apart "name" "namespace" refl) tt r.namespace p.namespace_found;
            together = cc p.together;
          }))

  -- So does `SetK8sNamespace` with a namespace that is not empty.
  pub get_k8s_ref-set_k8s_namespace :
      (ns : String)
      → ns ≢ ""
      → get_k8s_ref schema o ≡ ok r
      → set_k8s_namespace ns o ≡ ok o'
      → get_k8s_ref schema o' ≡ ok (record r { namespace = ns })
  unfolding set_k8s_namespace
  get_k8s_ref-set_k8s_namespace ns ne h e =
      let p = get_k8s_ref-Parts schema o r h in
      let (done, good) = edited-ok _ o' (rw (beq-ne ns "" ne) at e) in
      rw (← done) (
        Parts-get_k8s_ref schema _ (record r { namespace = ns })
          (record {
            gvk = p.gvk;
            gvk_found = get_k8s_gvk-set schema o "namespace" (string ns) p.gvk p.gvk_found;
            name_found =
                string_or_empty-set o (metadata "namespace") (metadata "name") (string ns)
                  (metadata_apart "namespace" "name" refl) tt r.name p.name_found;
            namespace_found =
                string_or_empty-get _ (metadata "namespace") ns (
                  get-set_nested_field o (string ns) (name "metadata") (name "namespace" ∷ [])
                    good);
            together = cc p.together;
          }))
