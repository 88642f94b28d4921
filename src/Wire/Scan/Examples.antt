-- ===== src/Wire/Scan/Examples.antt =====
-- A code of two bytes on a camera with either engine.
use vadum.Base.{
  ℕ, zero, suc, ◌<◌, ◌≡◌, refl, true, false, none, some, List, [], ◌∷◌, ◌==◌, if◌then◌else◌, arith,
}
use vadum.Base.Text.{Text, codes, text_eq}
use vadum.Core.Errors.{ok, err, vadum_error, internal_not_applicable, wire_base45_invalid}
use vadum.Wire.Base45.{to_base45, from_base45}
use vadum.Wire.Render.{
  QrEncoder, QrRender, level_q, level_by_bit, render_qr, chosen_level, only_segment,
}
use vadum.Wire.Scan.{
  decode_image, preload_scanner_engine, supports_qr_code, barcode_detector, zxing_wasm,
  CameraScanner, Turn, Opening, Barcode, create_scanner, chosen_engine, scanner_with, new_scanner,
  start, start_engine, stop, next, scan_frames, take_turn, after_frame, read_frame, read_image,
  first_qr_text, is_qr, scanned,
}
use vadum.Wire.Scan.RoundTrip.{Blank, Read, qr_of, next-render_qr}

abbrev encoder : QrEncoder
encoder = record {
  create = λ text level.
      ok (record {
        segment_modes = codes "alphanumeric" ∷ [];
        version = 1;
        level_bit = 3;
        size = 21;
      });
  to_data_url = λ text level. ok (codes "data:image/png");
  lower_case = λ mode. mode;
}

abbrev payload : List ℕ
payload = 72 ∷ 105 ∷ []

abbrev drawn : QrRender
drawn = record {
  text = to_base45 payload;
  version = 1;
  ec_level = level_q;
  matrix_size = 21;
  segment_mode = codes "alphanumeric";
  data_url = codes "data:image/png";
}

abbrev new : CameraScanner
new = record {
  engine = zxing_wasm;
  wasm_url = codes "/zxing.wasm";
  has_video = false;
  has_stream = false;
  opened_at = 0;
  is_aborted = false;
  has_detector = false;
  canvas = none;
  prepared_wasm_url = some (codes "/zxing.wasm");
}

abbrev filming : CameraScanner
filming = record new { has_video = true; has_stream = true; opened_at = 10 }

makes_a_scanner : create_scanner none (codes "/zxing.wasm") false none ≡ ok new
unfolding create_scanner chosen_engine scanner_with new_scanner text_eq
makes_a_scanner = refl

abbrev opening : Opening
opening = record {
  is_permitted = true;
  plays = true;
  has_constructor = false;
  constructs = false;
  now = 10;
}

starts_filming : start opening new ≡ (ok tt, filming)
unfolding start start_engine
starts_filming = refl

-- An empty frame, and one that shows the text.
abbrev frame : List Text → List Barcode → Turn
frame seen codes_read = record {
  is_stopped = false;
  detected = ok seen;
  width = 640;
  height = 480;
  has_context = true;
  barcodes = ok codes_read;
  now = 50;
}

finds_no_code : decode_image (ok []) 0 5 ≡ err (vadum_error wire_base45_invalid)
unfolding decode_image first_qr_text
finds_no_code = refl

prefers_the_platform :
    (supports_qr_code (some (some (ok (codes "qr_code" ∷ [])))) ≡ true)
    × (create_scanner none (codes "/zxing.wasm") true none
        ≡ ok (record new { engine = barcode_detector; prepared_wasm_url = none }))
unfolding supports_qr_code text_eq create_scanner chosen_engine scanner_with new_scanner
prefers_the_platform = (refl, refl)

warms_up :
    preload_scanner_engine false (codes "/zxing.wasm") (ok tt) none
    ≡ (ok zxing_wasm, some (codes "/zxing.wasm"))
unfolding preload_scanner_engine
warms_up = refl

abbrev second_shows : ℕ → Turn
second_shows i =
    if i == 1 then frame (to_base45 payload ∷ []) (qr_of (to_base45 payload) ∷ []) else frame [] []

stopped_scanner :
    next 5 second_shows (stop filming)
    ≡ some (err (vadum_error internal_not_applicable), stop filming)
unfolding next stop
stopped_scanner = refl

drawn_code : render_qr encoder payload none ≡ ok drawn
unfolding render_qr chosen_level only_segment level_by_bit
drawn_code = refl

second_shows-Blank : (j : ℕ) → j < 1 → Blank (second_shows j)
second_shows-Blank zero low = (refl, refl, refl, refl)
second_shows-Blank (suc j) low = absurd (omega (arith, low))

-- An empty text that zxing reads is taken as a payload of no bytes.
empty_code :
    (ms : ℕ) × (s : CameraScanner) × (next 1 (λ i. frame [] (qr_of [] ∷ [])) filming
      ≡ some (ok (record { bytes = []; raw_text = []; engine = zxing_wasm; ms_elapsed = ms }), s))
unfolding next scan_frames take_turn after_frame read_frame read_image first_qr_text is_qr text_eq
    scanned from_base45
empty_code = (40, record filming { canvas = some (640, 480) }, refl)

next-render_qr_example : Read payload (to_base45 payload) zxing_wasm (next 2 second_shows filming)
next-render_qr_example =
    next-render_qr encoder payload none drawn filming second_shows 1
      (omega arith, (omega arith, tt)) (omega arith) drawn_code refl refl second_shows-Blank
      (refl, refl, refl, refl, refl)
