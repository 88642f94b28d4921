-- ===== src/Shared/Copy/Examples.antt =====
-- What the user is told of single failures.
use vadum.Base.{◌≡◌, refl, true, some, length}
use vadum.Base.Text.{codes}
use vadum.Core.Errors.{submit_nonce_absent, internal_not_applicable, vadum_error_codes}
use vadum.Client.Store.Entries.{starts_with}
use vadum.Shared.Copy.{code_name, user_facing, user_facing_codes, copy_for, defect_copy}
use vadum.Shared.Copy.Complete.{HasCopy, copy_for-HasCopy, lower, says}
use vadum.Shared.Copy.Kinds.{reconnect, install}
use vadum.Shared.Copy.States.{recovery_copy, not_installed_copy}
use vadum.Shared.Copy.Sends.{submit_nonce_absent_copy}

tells_of_the_goods : says (codes "the goods are gone") (lower submit_nonce_absent_copy.body) ≡ true
unfolding says lower starts_with
tells_of_the_goods = refl

tells_of_a_defect : copy_for internal_not_applicable ≡ some defect_copy
unfolding copy_for user_facing code_name starts_with
tells_of_a_defect = refl

all_user_facing : length user_facing_codes ≡ 45
unfolding user_facing_codes user_facing code_name starts_with vadum_error_codes
all_user_facing = refl

recovery_reconnects : (recovery_copy.action ≡ reconnect) × (not_installed_copy.action ≡ install)
recovery_reconnects = (refl, refl)

copy_for-HasCopy_example : HasCopy submit_nonce_absent
copy_for-HasCopy_example = copy_for-HasCopy submit_nonce_absent
