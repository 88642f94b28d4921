-- ===== src/Shared/Copy/Kinds.antt =====
-- apps/shared/src/errors.ts: the kinds of copy. Every entry names its action, so that it is not optional.
use vadum.Base.Text.{Text}

pub data Side : Type 0 where
  payer_side merchant_side both_sides : Side

pub data Action : Type 0 where
  retry reconnect rescan install top_up no_action : Action

pub record FailureCopy : Type 0 where
  pub title : Text
  pub body : Text
  pub side : Side
  pub action : Action
