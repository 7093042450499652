-- ===== src/Tests/Diff.antt =====
-- Runs of the theorems on pkg/diff/obfuscate.go.
use kluctl.Prelude.{String, ◌≡◌, refl, none, some, ok, pos}
use kluctl.Types.ObjectRef.{ObjectRef, group_kind}
use kluctl.Uo.Value.{string, object, end, field, get_field, put_field}
use kluctl.Uo.Child.{get_child}
use kluctl.Uo.Nested.{UnstructuredObject, get_nested_field}
use kluctl.Uo.Typed.{get_nested_string}
use kluctl.Uo.K8s.{Schema, get_k8s_ref}
use kluctl.Diff.Obfuscate.{hidden_base64, secret_gk, obfuscate_object}
use kluctl.Diff.Obfuscate.Hidden.{Masked, obfuscate_object-Masked}

abbrev schema : Schema
schema = record {
  parse_group_version = λ s. ok (record { group = ""; version = s });
  group_version_string = λ gv. gv.version;
  int_of_float = λ n. pos 0;
}

-- A secret with one value.
abbrev login : String → UnstructuredObject
login password = record {
  fields = field "apiVersion" (string "v1") (
      field "kind" (string "Secret") (
        field "metadata" (object (field "name" (string "login") end))
          (field "data" (object (field "password" (string password) end)) end)));
}

abbrev login_ref : ObjectRef
login_ref = record { group = ""; version = "v1"; kind = "Secret"; name = "login"; namespace = "" }

login_ref_found : get_k8s_ref schema (login "aHVudGVyMg==") ≡ ok login_ref
unfolding get_k8s_ref get_nested_string get_nested_field get_child get_field
login_ref_found = refl

login_is_secret : group_kind login_ref ≡ secret_gk
unfolding group_kind
login_is_secret = refl

login_hidden :
    obfuscate_object schema (some (login "aHVudGVyMg==")) ≡ ok (some (login hidden_base64), none)
unfolding obfuscate_object get_k8s_ref get_nested_string get_nested_field get_child get_field
    group_kind put_field
login_hidden = refl

obfuscate_object-Masked_example : Masked "password" (login "aHVudGVyMg==") (login hidden_base64)
obfuscate_object-Masked_example =
    obfuscate_object-Masked schema (login "aHVudGVyMg==") (login hidden_base64) login_ref "password"
      login_ref_found login_is_secret login_hidden
