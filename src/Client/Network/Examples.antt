-- ===== src/Client/Network/Examples.antt =====
-- A throttled node: two requests are refused, and a transaction confirms at the second look.
use vadum.Base.{
  ℕ, suc, ◌+◌, ◌*◌, ◌≤◌, ◌≡◌, refl, false, ◌⊎◌, none, some, [], arith, ltb, if◌then◌else◌,
}
use vadum.Base.Int.{pos}
use vadum.Base.Number.{from_nat}
use vadum.Base.Text.{Text, codes, text_eq}
use vadum.Core.Errors.{foreign, vadum_error, mint_incompatible, ok, err}
use vadum.Core.Mint.Evaluate.{RawMintData, integer_of, evaluate_mint}
use vadum.Core.Mint.Json.{null, number, string, array, object, no_items, no_fields, field, get}
use vadum.Core.Types.{MintRecord}
use vadum.Client.Network.Attempts.{Attempted, with_retry-Attempted}
use vadum.Client.Network.Confirm.{
  confirmed, Node, Confirmers, confirm, after_confirm, send_payment, broadcast_and_poll, poll_after,
  poll, read_status, reached,
}
use vadum.Client.Network.Ends.{Hangs, send_payment-ends}
use vadum.Client.Network.Evaluable.{get_mint_account-evaluates}
use vadum.Client.Network.Landed.{Seen, send_payment-Seen}
use vadum.Client.Network.Project.{
  AccountInfo, program_by_owner, field_of, or_null, project_extensions, project_info, project_owned,
  project_mint,
}
use vadum.Client.Network.Requests.{Requests, fetched_account, get_mint_account}
use vadum.Client.Network.Retry.{
  Thrown, Answer, answered, threw, is_retryable, is_subscription_failure, retry_from, with_retry,
  result_of,
}
use vadum.Client.Submit.{PaymentLifetime, by_nonce}

abbrev throttled : Thrown
throttled = record { status_code = some 429; kit_code = none; message = []; failure = foreign }

-- The first two attempts are refused.
abbrev third_time : {A : Type 0} → A → ℕ → Answer A
third_time a n = if ltb n 3 then threw throttled else answered a

with_retry-Attempted_example :
    (more : ℕ) × Attempted {A = ℕ} (third_time 7) 1 4 (with_retry (third_time 7)) more
with_retry-Attempted_example = with_retry-Attempted {A = ℕ} (third_time 7)

abbrev node : Node
node = record {
  sends = λ skip. third_time tt;
  started_at = 0;
  clock = λ i. i * 2000;
  statuses = λ turn n. answered (
      if ltb turn 1
      then none
      else some (record { has_failed = false; confirmation = some confirmed }));
}

abbrev no_socket : Thrown
no_socket = record {
  status_code = none;
  kit_code = some 8_190_004;
  message = [];
  failure = foreign;
}

abbrev confirmers : Confirmers
confirmers = record {
  by_durable_nonce = λ lifetime. some (threw no_socket);
  by_block_height = λ lifetime. some (threw no_socket);
}

abbrev lifetime : PaymentLifetime
lifetime = by_nonce (codes "value") (codes "account") (codes "payer")

ticks : (i : ℕ) → i * 2000 + 2000 ≤ suc i * 2000
ticks i = omega arith

send_payment-ends_example :
    ((a : Answer Text) × (send_payment node (codes "signature") 46 confirmers lifetime false
        ≡ some a))
    ⊎ Hangs node (codes "signature") confirmers lifetime false
send_payment-ends_example =
    send_payment-ends node (codes "signature") confirmers lifetime false ticks (omega arith)

abbrev silent : Confirmers
silent = record { by_durable_nonce = λ lifetime. none; by_block_height = λ lifetime. none }

waits_for_ever : send_payment node (codes "signature") 46 silent lifetime false ≡ none
unfolding send_payment after_confirm confirm
waits_for_ever = refl

sends_by_polling :
    send_payment node (codes "signature") 46 confirmers lifetime false
    ≡ some (answered (codes "signature"))
unfolding send_payment after_confirm confirm is_subscription_failure broadcast_and_poll poll_after
    with_retry retry_from is_retryable poll read_status reached
sends_by_polling = refl

send_payment-Seen_example :
    (codes "signature" ≡ codes "signature")
    × ((confirm confirmers lifetime ≡ some (answered tt)) ⊎ Seen node)
send_payment-Seen_example =
    send_payment-Seen node (codes "signature") 46 confirmers lifetime false (codes "signature")
      sends_by_polling

abbrev account : AccountInfo
account = record {
  owner = codes "TokenzQdBNbLqP5VEhdkAS6EPFLC1PHnBqCXEpPxuEb";
  account_data = object (
      field (codes "parsed")
        (object (
          field (codes "info") (object (field (codes "decimals") (number (from_nat 6)) no_fields))
            no_fields))
        no_fields);
}

abbrev requests : Requests
requests = record {
  nonce_size = 80;
  rent = λ size n. answered (pos 1);
  account_info = λ mint. third_time (some account);
  nonce_data = λ address n. answered none;
  token_data = λ ata n. answered none;
  balance_of = λ address n. answered (pos 0);
  fails = λ signature n. answered none;
  latest_blockhash = λ n. answered (codes "hash");
}

abbrev raw : RawMintData
raw = record {
  mint = codes "mint";
  token_program = string (codes "token-2022");
  decimals = number (from_nat 6);
  freeze_authority = null;
  extensions = array no_items;
}

fetched : get_mint_account requests 100 (codes "mint") ≡ ok (raw, 100)
unfolding get_mint_account result_of with_retry retry_from is_retryable fetched_account project_mint
    project_owned program_by_owner text_eq project_info field_of get or_null project_extensions
fetched = refl

get_mint_account-evaluates_example :
    ((m : MintRecord) × (evaluate_mint raw 100 ≡ ok m))
    ⊎ ((integer_of raw.decimals ≡ none)
        × (evaluate_mint raw 100 ≡ err (vadum_error mint_incompatible)))
get_mint_account-evaluates_example =
    get_mint_account-evaluates requests (codes "mint") 100 100 raw fetched
