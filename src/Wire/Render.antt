-- ===== src/Wire/Render.antt =====
-- packages/wire/src/qr-encode.ts: a payload as a QR code. The encoder of QR codes is a parameter.
use vadum.Base.{ℕ, Option, none, some, List, [], ◌∷◌, ◌==◌, if◌then◌else◌}
use vadum.Base.Text.{Text}
use vadum.Core.Errors.{Result, ok, err, vadum_error, ◌>>=◌, wire_length_mismatch}
use vadum.Wire.Base45.{to_base45}

pub data EcLevel : Type 0 where
  level_l level_m level_q level_h : EcLevel

-- What `create` answers with: the mode of each segment, the version, the bits of the level, the size.
pub record QrSymbol : Type 0 where
  pub segment_modes : List Text
  pub version : ℕ
  pub level_bit : ℕ
  pub size : ℕ

-- `create` and `toDataURL` for one alphanumeric segment, and `toLowerCase`.
pub record QrEncoder : Type 0 where
  pub create : Text → EcLevel → Result QrSymbol
  pub to_data_url : Text → EcLevel → Result Text
  pub lower_case : Text → Text

pub record QrRender : Type 0 where
  pub text : Text
  pub version : ℕ
  pub ec_level : EcLevel
  pub matrix_size : ℕ
  pub segment_mode : Text
  pub data_url : Text

-- `LEVEL_BY_BIT[bit] ?? ecLevel`.
unfoldable pub level_by_bit : ℕ → EcLevel → EcLevel
level_by_bit bit level =
    if bit == 0
    then level_m
    else if bit == 1
    then level_l
    else if bit == 2
    then level_h
    else if bit == 3
    then level_q
    else level

-- `opts?.ecLevel ?? 'Q'`.
unfoldable pub chosen_level : Option EcLevel → EcLevel
chosen_level none = level_q
chosen_level (some level) = level

-- The one segment of a symbol.
unfoldable pub only_segment : List Text → Result Text
only_segment (mode ∷ []) = ok mode
only_segment _ = err (vadum_error wire_length_mismatch)

unfoldable pub render_qr : QrEncoder → List ℕ → Option EcLevel → Result QrRender
render_qr k payload level = do
  symbol ← k.create (to_base45 payload) (chosen_level level)
  mode ← only_segment symbol.segment_modes
  url ← k.to_data_url (to_base45 payload) (chosen_level level)
  ok (record {
    text = to_base45 payload;
    version = symbol.version;
    ec_level = level_by_bit symbol.level_bit (chosen_level level);
    matrix_size = symbol.size;
    segment_mode = k.lower_case mode;
    data_url = url;
  })
