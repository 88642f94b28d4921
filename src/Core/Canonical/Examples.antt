-- ===== src/Core/Canonical/Examples.antt =====
-- A payment signed and verified at concrete inputs.
use vadum.Base.{ℕ, ◌≡◌, refl, true, false, none, some, List, [], ◌∷◌, replicate, length-replicate}
use vadum.Base.Int.{pos}
use vadum.Base.Number.{from_nat, is_u8}
use vadum.Base.Text.{codes, text_eq}
use vadum.Core.Derive.{nonce_seed, derive_nonce_address}
use vadum.Core.Errors.{ok}
use vadum.Core.Kit.{Derivation, Crypto}
use vadum.Core.Types.{Auth, CanonicalInput, VerifiedPayment, nonce, spl_token}
use vadum.Core.Canonical.Message.{
  Compiler, differs, apply_durable_nonce, apply_lifetime, build_message,
}
use vadum.Core.Canonical.Difference.{Decoder, assert_canonical}
use vadum.Core.Canonical.Sign.{resolve_amount, is_valid, sign_as_payer, verify_auth}
use vadum.Core.Canonical.RoundTrip.{SignatureLaws, expected_of, verify_auth-sign_as_payer}
use vadum.Core.Canonical.Verified.{Payment, verify_auth-Payment}

abbrev keys : Crypto
keys = record {
  address_of = λ key. key ∷ [];
  sign = λ key message. replicate 64 key;
  verify = λ signer signature message. some true;
}

keys-SignatureLaws : SignatureLaws keys
keys-SignatureLaws = record {
  whole = λ key message. length-replicate 64 key;
  verifies = λ key message. refl;
}

abbrev derivation : Derivation
derivation = record {
  create_address_with_seed = λ base program seed. seed;
  find_associated_token_pda = λ owner mint program. owner;
  system_program = codes "system";
  token_program = codes "token";
  token_2022_program = codes "token-2022";
  associated_token_program = codes "ata";
}

abbrev compile : Compiler
compile = λ draft. ok draft.fee_payer

abbrev decode : Decoder
decode = λ bytes. none

abbrev input : CanonicalInput
input = record {
  intent = record {
    merchant = codes "shop";
    mint = codes "mint";
    decimals = from_nat 6;
    amount = some (pos 5);
    lifetime = nonce;
    include_create_ata = true;
    token_program = spl_token;
    fee_payer = codes "shop";
    is_static = false;
  };
  payer = 9 ∷ [];
  nonce_ref = some (record { index = from_nat 4; value = codes "value" });
  amount = pos 5;
}

abbrev auth : Auth
auth = record {
  payer = 9 ∷ [];
  nonce_ref = some (record { index = from_nat 4; value = codes "value" });
  amount = none;
  signature = replicate 64 9;
}

signed_by_payer : sign_as_payer derivation compile keys decode input 9 ≡ ok auth
unfolding sign_as_payer text_eq build_message differs is_u8 apply_lifetime apply_durable_nonce
    derive_nonce_address nonce_seed assert_canonical
signed_by_payer = refl

abbrev payment : VerifiedPayment
payment = record { input = input; message_bytes = codes "shop"; auth = auth }

verified_by_merchant : verify_auth derivation compile keys input.intent auth none ≡ ok payment
unfolding verify_auth text_eq resolve_amount build_message differs is_u8 apply_lifetime
    apply_durable_nonce derive_nonce_address nonce_seed is_valid
verified_by_merchant = refl

verify_auth-sign_as_payer_example :
    (m : List ℕ) × (build_message derivation compile input ≡ ok m)
    × (verify_auth derivation compile keys input.intent auth (expected_of input)
        ≡ ok (record { input = input; message_bytes = m; auth = auth }))
verify_auth-sign_as_payer_example =
    verify_auth-sign_as_payer derivation compile keys keys-SignatureLaws decode input 9 auth
      signed_by_payer

verify_auth-Payment_example : Payment derivation compile keys input.intent auth none payment
verify_auth-Payment_example =
    verify_auth-Payment derivation compile keys input.intent auth none payment verified_by_merchant
