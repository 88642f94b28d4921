-- ===== src/Client/Setting.antt =====
-- A network and keys for the examples: the chain executes and fails what it is sent.
use vadum.Base.{true, some, [], ◌∷◌, replicate}
use vadum.Base.Text.{codes}
use vadum.Core.Canonical.Wire.{TransactionKit}
use vadum.Core.Errors.{ok, err, foreign}
use vadum.Core.Kit.{Derivation, Crypto}
use vadum.Client.Rpc.{Rpc, absent}
use vadum.Client.Queue.Drain.{Turn}
use vadum.Client.Submit.{Sender, landed_failed}

abbrev pub network : Rpc
network = record {
  nonce_rent_exemption = err foreign;
  rent_exemption = λ n. err foreign;
  nonce_account = λ address. ok absent;
  balance = λ address. err foreign;
  send_setup = λ instructions. err foreign;
}

abbrev pub sender : Sender
sender = record {
  signature_of = λ wire. ok (codes "signature");
  send_payment = λ wire lifetime. err foreign;
  signature_outcome = λ signature. ok landed_failed;
  error_text = λ e. codes "custom program error";
}

abbrev pub derivation : Derivation
derivation = record {
  create_address_with_seed = λ base program seed. seed;
  find_associated_token_pda = λ owner mint program. owner;
  system_program = codes "system";
  token_program = codes "token";
  token_2022_program = codes "token-2022";
  associated_token_program = codes "ata";
}

abbrev pub keys : Crypto
keys = record {
  address_of = λ key. key ∷ [];
  sign = λ key message. replicate 64 key;
  verify = λ signer signature message. some true;
}

abbrev pub transactions : TransactionKit
transactions = record {
  signers_of = λ message. some [];
  partially_sign = λ key message signatures. ok signatures;
  encode = λ message signatures. ok message;
}

abbrev pub quiet_turn : Turn
quiet_turn = record {
  rpc = network;
  sender = sender;
  marks = true;
  records = true;
  notes = true;
  while_sending = [];
  while_recording = [];
  while_noting = [];
}
