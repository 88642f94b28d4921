-- ===== src/Client/Submit/Examples.antt =====
-- A submission that the chain executed and failed.
use vadum.Base.{ℕ, ◌≡◌, refl, true, false, none, some, List, [], ◌∷◌, replicate}
use vadum.Base.Int.{pos}
use vadum.Base.Number.{from_nat}
use vadum.Base.Text.{Text, codes, text_eq}
use vadum.Core.Errors.{ok, submit_execution_failed}
use vadum.Core.Canonical.Wire.{build_wire_transaction}
use vadum.Core.Types.{VerifiedPayment, fresh, spl_token}
use vadum.Client.Setting.{network, sender, derivation, keys, transactions}
use vadum.Client.Submit.{
  did_fail, landed_failed, payment_lifetime, after_lookup, after_send, send, submit,
}
use vadum.Client.Submit.FeeCharged.{submit-charged}

abbrev payment : VerifiedPayment
payment = record {
  input = record {
    intent = record {
      merchant = 2 ∷ [];
      mint = codes "mint";
      decimals = from_nat 6;
      amount = some (pos 5);
      lifetime = fresh (codes "hash") (pos 10);
      include_create_ata = true;
      token_program = spl_token;
      fee_payer = 2 ∷ [];
      is_static = false;
    };
    payer = 1 ∷ [];
    nonce_ref = none;
    amount = pos 5;
  };
  message_bytes = 8 ∷ [];
  auth = record { payer = 1 ∷ []; nonce_ref = none; amount = none; signature = replicate 64 1 };
}

charged_for_nothing :
    submit network sender derivation payment keys transactions 2
    ≡ ok (did_fail submit_execution_failed true)
unfolding submit payment_lifetime build_wire_transaction text_eq after_send send after_lookup
charged_for_nothing = refl

submit-charged_example :
    (wire : List ℕ) × (signature : Text) × (build_wire_transaction keys transactions payment 2
      ≡ ok wire)
    × (sender.signature_of wire ≡ ok signature)
    × (sender.signature_outcome signature ≡ ok landed_failed)
    × (did_fail submit_execution_failed true ≡ did_fail submit_execution_failed true)
submit-charged_example =
    submit-charged network sender derivation payment keys transactions 2 submit_execution_failed
      charged_for_nothing
