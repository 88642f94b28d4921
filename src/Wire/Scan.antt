-- ===== src/Wire/Scan.antt =====
-- packages/wire/src/qr-scan.ts: the scanner. What the browser and the decoder of images answer are
-- arguments.
pub mod RoundTrip
mod Examples
use vadum.Base.{
  ℕ, suc, zero, ◌-◌, Bool, true, false, not, ◌&&◌, ◌||◌, Option, none, some, List, [], ◌∷◌, ◌==◌,
  if◌then◌else◌, any, find,
}
use vadum.Base.Text.{Text, codes, text_eq}
use vadum.Core.Errors.{
  Result, ok, err, foreign, vadum_error, ◌>>=◌, or_throw, internal_not_applicable,
  wire_base45_invalid,
}
use vadum.Wire.Base45.{from_base45}

pub data ScanEngine : Type 0 where
  barcode_detector zxing_wasm : ScanEngine

-- Times are ℕ: `performance.now()` in whole milliseconds, and it does not go back.
pub record ScanResult : Type 0 where
  pub bytes : List ℕ
  pub raw_text : Text
  pub engine : ScanEngine
  pub ms_elapsed : ℕ

-- A result of `readBarcodes`.
pub record Barcode : Type 0 where
  pub is_valid : Bool
  pub format : Text
  pub text : Text

-- The fields of `CameraScanner`, and the module's `preparedWasmUrl`. The video and the stream are
-- there or not; the canvas has its size.
pub record CameraScanner : Type 0 where
  pub engine : ScanEngine
  pub wasm_url : Text
  pub has_video : Bool
  pub has_stream : Bool
  pub opened_at : ℕ
  pub is_aborted : Bool
  pub has_detector : Bool
  pub canvas : Option (ℕ × ℕ)
  pub prepared_wasm_url : Option Text

-- The detector of the platform: its constructor is there or not, and so is the list of its formats.
unfoldable pub supports_qr_code : Option (Option (Result (List Text))) → Bool
supports_qr_code none = false
supports_qr_code (some none) = true
supports_qr_code (some (some (err e))) = false
supports_qr_code (some (some (ok formats))) = any (text_eq (codes "qr_code")) formats

unfoldable pub is_qr : Barcode → Bool
is_qr b = b.is_valid && text_eq b.format (codes "QRCode")

text_of : Option Barcode → Option Text
text_of none = none
text_of (some b) = some b.text

unfoldable pub first_qr_text : List Barcode → Option Text
unfolding text_of
first_qr_text results = text_of (find is_qr results)

-- `decodeImage`, of what `readBarcodes` answers and the times before and after it.
unfoldable pub decode_image : Result (List Barcode) → (started_at now : ℕ) → Result ScanResult
decode_image read started_at now = do
  results ← read
  text ← or_throw (first_qr_text results) (vadum_error wire_base45_invalid)
  bytes ← from_base45 text
  ok (record { bytes = bytes; raw_text = text; engine = zxing_wasm; ms_elapsed = now - started_at })

-- What `start` meets: the permission for the camera, the video that plays, the constructor of the
-- detector that is there and that succeeds, and the time.
pub record Opening : Type 0 where
  pub is_permitted : Bool
  pub plays : Bool
  pub has_constructor : Bool
  pub constructs : Bool
  pub now : ℕ

unfoldable pub start_engine :
    ScanEngine → Opening → CameraScanner → Result (Unit {0}) × CameraScanner
start_engine barcode_detector o s =
    if not o.has_constructor
    then (err (vadum_error internal_not_applicable), s)
    else if o.constructs
    then (ok tt, record s { has_detector = true })
    else (err foreign, s)
start_engine zxing_wasm o s = (ok tt, record s { prepared_wasm_url = some s.wasm_url })

unfoldable pub start : Opening → CameraScanner → Result (Unit {0}) × CameraScanner
start o s =
    if not o.is_permitted
    then (err foreign, record s { is_aborted = false })
    else if not o.plays
    then (err foreign, record s { is_aborted = false; has_stream = true })
    else start_engine s.engine o
        (record s { is_aborted = false; has_stream = true; has_video = true; opened_at = o.now })

unfoldable pub stop : CameraScanner → CameraScanner
stop s = record s { is_aborted = true; has_stream = false; has_video = false; has_detector = false }

-- One turn of the loop of `next`: whether `stop` was called since the turn before, what the detector
-- and the video answer, and the time at its end.
pub record Turn : Type 0 where
  pub is_stopped : Bool
  pub detected : Result (List Text)
  pub width : ℕ
  pub height : ℕ
  pub has_context : Bool
  pub barcodes : Result (List Barcode)
  pub now : ℕ

-- The first of the values, unless it is empty.
unfoldable pub first_value : List Text → Option Text
first_value [] = none
first_value ([] ∷ rest) = none
first_value ((c ∷ s) ∷ rest) = some (c ∷ s)

unfoldable pub detect_text : Result (List Text) → Result (Option Text)
detect_text detected = do values ← detected; ok (first_value values)

unfoldable pub read_image : Turn → Result (Option Text)
read_image t =
    if t.has_context
    then (do results ← t.barcodes; ok (first_qr_text results))
    else err (vadum_error internal_not_applicable)

unfoldable pub read_frame : Turn → CameraScanner → Result (Option Text) × CameraScanner
read_frame t s =
    if s.has_detector
    then (detect_text t.detected, s)
    else if t.width == 0 || t.height == 0
    then (ok none, s)
    else (read_image t, record s { canvas = some (t.width, t.height) })

unfoldable pub scanned : Turn → Text → CameraScanner → Result ScanResult
scanned t text s = do
  bytes ← from_base45 text
  ok (record {
    bytes = bytes;
    raw_text = text;
    engine = s.engine;
    ms_elapsed = t.now - s.opened_at;
  })

abbrev pub Scan : Type 0
Scan = Result ScanResult × CameraScanner

unfoldable pub after_frame :
    Turn → Result (Option Text) × CameraScanner → (CameraScanner → Option Scan) → Option Scan
after_frame t (err e, s) rest = some (err e, s)
after_frame t (ok none, s) rest = rest s
after_frame t (ok (some text), s) rest = some (scanned t text s, s)

unfoldable pub take_turn : Turn → CameraScanner → (CameraScanner → Option Scan) → Option Scan
take_turn t s rest =
    let here = if t.is_stopped then stop s else s in
    if here.is_aborted
    then some (err (vadum_error internal_not_applicable), here)
    else after_frame t (read_frame t here) rest

-- The loop, as long as the fuel lasts.
unfoldable pub scan_frames : ℕ → (ℕ → Turn) → ℕ → CameraScanner → Option Scan
scan_frames zero turns i s = none
scan_frames (suc fuel) turns i s =
    let rest = scan_frames fuel turns (suc i) in take_turn (turns i) s rest

unfoldable pub next : ℕ → (ℕ → Turn) → CameraScanner → Option Scan
next fuel turns s =
    if s.has_video
    then scan_frames fuel turns 0 s
    else some (err (vadum_error internal_not_applicable), s)

unfoldable pub new_scanner : ScanEngine → Text → Option Text → CameraScanner
new_scanner engine wasm_url prepared = record {
  engine = engine;
  wasm_url = wasm_url;
  has_video = false;
  has_stream = false;
  opened_at = 0;
  is_aborted = false;
  has_detector = false;
  canvas = none;
  prepared_wasm_url = prepared;
}

unfoldable pub chosen_engine : Option ScanEngine → Bool → ScanEngine
chosen_engine (some zxing_wasm) supported = zxing_wasm
chosen_engine _ true = barcode_detector
chosen_engine _ false = zxing_wasm

unfoldable pub scanner_with : ScanEngine → Text → Option Text → CameraScanner
scanner_with zxing_wasm url prepared = new_scanner zxing_wasm url (some url)
scanner_with barcode_detector url prepared = new_scanner barcode_detector url prepared

-- `createScanner`, of whether the platform supports QR codes and what was prepared before.
unfoldable pub create_scanner : Option ScanEngine → Text → Bool → Option Text → Result CameraScanner
create_scanner prefer wasm_url supported prepared =
    if text_eq wasm_url []
    then err (vadum_error internal_not_applicable)
    else ok (scanner_with (chosen_engine prefer supported) wasm_url prepared)

-- `preloadScannerEngine`, of whether the module could be set going.
unfoldable pub preload_scanner_engine :
    Bool → Text → Result (Unit {0}) → Option Text → Result ScanEngine × Option Text
preload_scanner_engine true wasm_url fired prepared = (ok barcode_detector, prepared)
preload_scanner_engine false wasm_url (ok u) prepared = (ok zxing_wasm, some wasm_url)
preload_scanner_engine false wasm_url (err e) prepared = (err e, some wasm_url)
