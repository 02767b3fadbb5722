-- ===== src/Tests/Names.antt =====
-- The name and the version that the pipeline gives its command are admitted.
use metaframer_kernel.Base.{◌≡◌, refl, pos, ok, err, type_error}
use metaframer_kernel.Text.{codes}
use metaframer_kernel.Text.Forms.{action_name_form}
use metaframer_kernel.Js.{string, number, integer, is_safe_integer}
use metaframer_kernel.Actions.{action_name, action_version}

create_named : action_name (string (codes "customer.create")) ≡ ok (codes "customer.create")
unfolding action_name action_name_form
create_named = refl

one_segment : action_name (string (codes "customer")) ≡ err type_error
unfolding action_name action_name_form
one_segment = refl

first_version : action_version (number (integer (pos 1))) ≡ ok 1
unfolding action_version is_safe_integer
first_version = refl
