-- ===== src/Client/Pool/Examples.antt =====
-- A small pool at concrete inputs: a reservation, a second one, and a return.
use vadum.Base.{ℕ, ◌≡◌, ◌≢◌, refl, true, none, some, [], ◌∷◌, arith, replicate}
use vadum.Base.Int.{total, sum_from, pos, ◌≤ℤ◌, ◌-ℤ◌, ◌+ℤ◌}
use vadum.Base.Number.{from_nat, is_u8, to_uint8, number_is}
use vadum.Base.Text.{Text, text_eq}
use vadum.Core.Derive.{nonce_seed, derive_nonce_address}
use vadum.Core.Errors.{Result, ok}
use vadum.Core.Kit.{Crypto, Derivation}
use vadum.Core.NonceReturn.{
  ReceivedReturn, only_32, base58_bytes32, nonce_return_signing_bytes, or_untrusted, statement_of,
  check_return_signature, verify_nonce_return,
}
use vadum.Core.RawKit.{raw, bytes_are_low, raw_kit}
use vadum.Client.Rpc.{Rpc, initialized}
use vadum.Client.Pool.Chain.{
  pool_size, estimate_setup_cost, times, is_underfunded, setup, refreshed, value_of,
}
use vadum.Client.Pool.Online.{create, assert_payer_key, quotient, prior_spend_log, refresh}
use vadum.Client.Pool.State.{
  unspent, spent, PoolSlot, PoolState, default_options, counted, is_unspent, status_of,
  replace_slot, with_slot, rearmed, log_of, amounts, allowance_of, is_usable, never_released,
  next_slot,
}
use vadum.Client.Pool.Memory.{Memory, ◌>>=◌, pure, lift, persist, ledger, loaded_from, loaded}
use vadum.Client.Pool.Offline.{
  spent_slot, reserved, reserve_from, reserve_slot, slot_at, spent_record, apply_nonce_return,
}
use vadum.Client.Pool.SpendSums.{spent_in}
use vadum.Client.Pool.SpendBounds.{in_window, entry_of}
use vadum.Client.Pool.Reservations.{SpentAt, reserve_slot-SpentAt, reserve_slot-once}
use vadum.Client.Pool.Refills.{reserve_slot-refills}
use vadum.Client.Pool.Returns.{Rearmed, apply_nonce_return-Rearmed}
use vadum.Client.Pool.SpendLimit.{Reaches, opened, signed_after, spent_in-window-le}
use vadum.Client.Pool.SpendLimit

abbrev wallet : Text
wallet = replicate 32 1

abbrev shop : Text
shop = replicate 32 2

abbrev value_at : ℕ → Text
value_at n = replicate 32 n

abbrev slot_of : ℕ → PoolSlot
slot_of n = record {
  index = n;
  address = replicate 32 n;
  value = some (value_at n);
  state = unspent;
  spent_against = none;
  released_at = none;
}

abbrev two_slots : PoolState
two_slots = record {
  payer = wallet;
  size = 2;
  epoch = [];
  slots = slot_of 0 ∷ slot_of 1 ∷ [];
  spend_log = none;
}

abbrev first_log : PoolState
first_log = record {
  payer = wallet;
  size = 2;
  epoch = [];
  slots =
      record (slot_of 0) {
        state = spent;
        spent_against = some (record { value = value_at 0; merchant = shop; at = 1000 });
      }
      ∷ slot_of 1
      ∷ [];
  spend_log = some (entry_of 1000 (pos 5) ∷ []);
}

abbrev second_log : PoolState
second_log = record {
  payer = wallet;
  size = 2;
  epoch = [];
  slots =
      record (slot_of 0) {
        state = spent;
        spent_against = some (record { value = value_at 0; merchant = shop; at = 1000 });
      }
      ∷ record (slot_of 1) {
        state = spent;
        spent_against = some (record { value = value_at 1; merchant = shop; at = 2000 });
      }
      ∷ [];
  spend_log = some (entry_of 1000 (pos 5) ∷ entry_of 2000 (pos 7) ∷ []);
}

abbrev both : PoolState → Memory
both s = record { current = some s; stored = some s }

abbrev at_start : Memory
at_start = record { current = none; stored = some two_slots }

first_reservation :
    reserve_slot default_options true shop 1000 (pos 5) at_start
    ≡ (ok (0, value_at 0), both first_log)
unfolding reserve_slot reserve_from ◌>>=◌ pure lift loaded loaded_from ledger persist allowance_of
    counted log_of amounts total sum_from next_slot is_usable is_unspent never_released reserved
    spent_slot with_slot replace_slot ◌-ℤ◌ ◌+ℤ◌ status_of
first_reservation = refl

second_reservation :
    reserve_slot default_options true shop 2000 (pos 7) (both first_log)
    ≡ (ok (1, value_at 1), both second_log)
unfolding reserve_slot reserve_from ◌>>=◌ pure lift loaded loaded_from ledger persist allowance_of
    counted log_of amounts total sum_from next_slot is_usable is_unspent never_released reserved
    spent_slot with_slot replace_slot ◌-ℤ◌ ◌+ℤ◌ status_of
second_reservation = refl

reserve_slot-SpentAt_example :
    (s : PoolState) × (ledger (both first_log) ≡ some s)
    × (some first_log ≡ some s)
    × SpentAt 0 (record { value = value_at 0; merchant = shop; at = 1000 }) s.slots
reserve_slot-SpentAt_example =
    reserve_slot-SpentAt default_options true shop 1000 (pos 5) at_start (both first_log) 0
      (value_at 0) first_reservation

reserve_slot-once_example : ◌≢◌ {A = ℕ} 0 1
reserve_slot-once_example =
    reserve_slot-once default_options true true shop shop 1000 2000 (pos 5) (pos 7) at_start
      (both first_log) (both second_log) 0 1 (value_at 0) (value_at 1) first_reservation
      second_reservation

abbrev trusting : Crypto
trusting = record {
  address_of = λ key. replicate 32 key;
  sign = λ key message. replicate 64 key;
  verify = λ signer signature message. some true;
}

abbrev handed_over : ReceivedReturn
handed_over = record {
  nonce_index = from_nat 0;
  new_nonce_value = value_at 9;
  signature = replicate 64 9;
}

abbrev returned_log : PoolState
returned_log = record {
  payer = wallet;
  size = 2;
  epoch = [];
  slots = record (slot_of 0) { value = some (value_at 9) } ∷ slot_of 1 ∷ [];
  spend_log = some (entry_of 1000 (pos 5) ∷ []);
}

return_applied :
    apply_nonce_return raw_kit trusting wallet true handed_over (both first_log)
    ≡ (ok (status_of returned_log), both returned_log)
unfolding apply_nonce_return ◌>>=◌ lift loaded loaded_from ledger slot_at number_is spent_record
    verify_nonce_return text_eq or_untrusted check_return_signature statement_of
    nonce_return_signing_bytes nonce_seed is_u8 base58_bytes32 only_32 raw bytes_are_low to_uint8
    with_slot replace_slot rearmed persist
return_applied = refl

apply_nonce_return-Rearmed_example :
    Rearmed raw_kit trusting wallet handed_over (both first_log) (both returned_log)
apply_nonce_return-Rearmed_example =
    apply_nonce_return-Rearmed raw_kit trusting wallet true handed_over (both first_log)
      (both returned_log) (status_of returned_log) return_applied

-- A network on which the one nonce account has a value and the wallet pays for the setup.
abbrev network : Rpc
network = record {
  nonce_rent_exemption = ok (pos 100);
  rent_exemption = λ n. ok (pos 50);
  nonce_account = λ address. ok (initialized wallet (value_at 3) (pos 100));
  balance = λ address. ok (pos 10_000);
  send_setup = λ instructions. ok tt;
}

abbrev derivation : Derivation
derivation = record {
  create_address_with_seed = λ base program seed. base;
  find_associated_token_pda = λ owner mint program. owner;
  system_program = value_at 20;
  token_program = value_at 21;
  token_2022_program = value_at 22;
  associated_token_program = value_at 23;
}

abbrev after_create : Memory
after_create =
    (create network derivation trusting wallet true [] (from_nat 1) 1
      (record { current = none; stored = none })).1

abbrev attempt : Result (ℕ × Text) × Memory
attempt = reserve_slot default_options true shop 1000 (pos 5) after_create

created_slot_handed_out : attempt.0 ≡ ok (0, value_at 3)
unfolding create pool_size assert_payer_key text_eq estimate_setup_cost times is_underfunded setup
    derive_nonce_address nonce_seed is_u8 quotient prior_spend_log refresh refreshed value_of
    reserve_slot reserve_from ◌>>=◌ pure lift loaded loaded_from ledger persist allowance_of counted
    log_of amounts total sum_from next_slot is_usable is_unspent never_released ◌-ℤ◌ ◌+ℤ◌
created_slot_handed_out = refl

spent_in-window-le_example :
    spent_in (in_window default_options 5000 (signed_after attempt.0 1000 (pos 5) []))
    ≤ℤ pos 100_000_000
spent_in-window-le_example =
    spent_in-window-le default_options (omega arith) 5000
      (SpendLimit.reserved true shop 1000 (pos 5) (omega arith)
        (SpendLimit.created network derivation trusting wallet true [] (from_nat 1) 1 opened))
      (omega arith)

abbrev day_old : Memory
day_old = record { current = none; stored = some first_log }

-- A day after the last reservation, the whole limit can be spent from the second slot.
reserve_slot-refills_example :
    (i : ℕ) × (v : Text) × (m' : Memory) × (reserve_slot default_options true shop 86_401_000
        (pos 100_000_000)
        day_old
      ≡ (ok (i, v), m'))
reserve_slot-refills_example =
    reserve_slot-refills default_options shop 86_401_000 (pos 100_000_000) day_old first_log
      (unfold ledger in refl) (unfold is_usable is_unspent in refl) (omega arith, tt) (omega arith)
      (omega arith)
