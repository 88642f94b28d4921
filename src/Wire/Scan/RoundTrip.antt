-- ===== src/Wire/Scan/RoundTrip.antt =====
-- packages/wire/src/qr-scan.ts: a payload that is rendered is scanned.
use vadum.Base.{
  ℕ, zero, suc, ◌+◌, ◌-◌, ◌≤◌, ◌<◌, ◌≡◌, refl, sym, ap, subst, ◌∙◌, true, false, ◌||◌, Option, some,
  List, [], ◌∷◌, ◌==◌, if◌then◌else◌, length, All, arith, Bool-cases, inl, inr,
}
use vadum.Base.Text.{Text, codes, text_eq}
use vadum.Core.Errors.{ok, err, vadum_error, internal_not_applicable, >>=-eq-ok, ok-injective}
use vadum.Wire.Base45.{to_base45, from_base45}
use vadum.Wire.Base45.RoundTrip.{IsByte, from_base45-to_base45, length-to_base45}
use vadum.Wire.Render.{QrEncoder, QrRender, EcLevel, render_qr, chosen_level, only_segment}
use vadum.Wire.Scan.{
  ScanEngine, Barcode, CameraScanner, Turn, Scan, is_qr, first_qr_text, first_value, detect_text,
  read_image, read_frame, scanned, after_frame, take_turn, scan_frames, next,
}

-- A turn in which neither engine sees a code, and nothing stops the scanner.
abbrev pub Blank : Turn → Type 0
Blank t =
    (t.is_stopped ≡ false) × (t.detected ≡ ok []) × (t.has_context ≡ true) × (t.barcodes ≡ ok [])

abbrev pub qr_of : Text → Barcode
qr_of text = record { is_valid = true; format = codes "QRCode"; text = text }

-- A turn in which either engine sees a code of the text first.
abbrev pub Shows : Text → Turn → Type 0
Shows text t =
    (t.is_stopped ≡ false)
    × (t.detected ≡ ok (text ∷ []))
    × ((t.width == 0 || t.height == 0) ≡ false)
    × (t.has_context ≡ true)
    × (t.barcodes ≡ ok (qr_of text ∷ []))

-- The scan ended with the payload, read with the engine of the scanner.
abbrev pub Read : List ℕ → Text → ScanEngine → Option Scan → Type 0
Read payload text engine r =
    (ms : ℕ) × (s : CameraScanner) × (r
      ≡ some
          (ok (record { bytes = payload; raw_text = text; engine = engine; ms_elapsed = ms }), s))

-- A scanner goes on from one with the same engine, which is not stopped.
abbrev Goes : CameraScanner → Option Scan → (CameraScanner → Option Scan) → Type 0
Goes s r rest =
    (s' : CameraScanner) × (r ≡ rest s') × (s'.is_aborted ≡ false) × (s'.engine ≡ s.engine)

take_turn-Blank :
    (t : Turn) (s : CameraScanner) (rest : CameraScanner → Option Scan)
    → Blank t
    → s.is_aborted ≡ false
    → Goes s (take_turn t s rest) rest
unfolding take_turn read_frame detect_text first_value read_image first_qr_text after_frame
take_turn-Blank t s rest (going, seen, context, none_read) here = elim (Bool-cases s.has_detector) [
  | inl d ↦ (s, rw (going, here, d, seen) refl, here, refl)
  | inr d ↦ elim (Bool-cases (t.width == 0 || t.height == 0)) [
    | inl e ↦ (s, rw (going, here, d, e) refl, here, refl)
    | inr e ↦ (
      record s { canvas = some (t.width, t.height) },
      rw (going, here, d, e, context, none_read) refl,
      here,
      refl,
    )
  ]
]

shown_value : (text : Text) → 0 < length text → first_value (text ∷ []) ≡ some text
unfolding first_value
shown_value [] h = absurd (omega (arith, h))
shown_value (c ∷ s) h = refl

take_turn-Shows :
    (t : Turn) (s : CameraScanner) (rest : CameraScanner → Option Scan) (payload : List ℕ)
    (text : Text)
    → Shows text t
    → s.is_aborted ≡ false
    → 0 < length text
    → from_base45 text ≡ ok payload
    → Read payload text s.engine (take_turn t s rest)
unfolding take_turn read_frame detect_text read_image first_qr_text is_qr text_eq after_frame
    scanned
take_turn-Shows t s rest payload text (going, seen, sized, context, one_read) here some_text
      decoded =
    elim (Bool-cases s.has_detector) [
      | inl d ↦ (
        t.now - s.opened_at,
        s,
        rw (going, here, d, seen, shown_value text some_text, decoded) refl,
      )
      | inr d ↦ (
        t.now - s.opened_at,
        record s { canvas = some (t.width, t.height) },
        rw (going, here, d, sized, context, one_read, decoded) refl,
      )
    ]

scan_frames-Shows :
    (d : ℕ) (turns : ℕ → Turn) (i k : ℕ) (s : CameraScanner) (payload : List ℕ) (text : Text)
    → i + d ≡ k
    → ((j : ℕ) → i ≤ j → j < k → Blank (turns j))
    → Shows text (turns k)
    → s.is_aborted ≡ false
    → 0 < length text
    → from_base45 text ≡ ok payload
    → Read payload text s.engine (scan_frames (suc d) turns i s)
unfolding scan_frames
scan_frames-Shows zero turns i k s payload text sum blank shows here some_text decoded =
    let same : k ≡ i = omega (arith, sum) in
    take_turn-Shows (turns i) s (scan_frames zero turns (suc i)) payload text
      (subst (λ n. Shows text (turns n)) same shows) here some_text decoded
scan_frames-Shows (suc d) turns i k s payload text sum blank shows here some_text decoded =
    let (s', step, goes, engine) =
      take_turn-Blank (turns i) s (scan_frames (suc d) turns (suc i))
        (blank i (omega arith) (omega (arith, sum))) here in
    let (ms, s'', e) =
      scan_frames-Shows d turns (suc i) k s' payload text (omega (arith, sum))
        (λ j low high. blank j (omega (arith, low)) high) shows goes some_text decoded in
    (
      ms,
      s'',
      step
          ∙ e
          ∙ ap
              (λ g. some (
                ok (record { bytes = payload; raw_text = text; engine = g; ms_elapsed = ms }),
                s'',
              ))
              engine,
    )

render_qr-text :
    (k : QrEncoder) (payload : List ℕ) (level : Option EcLevel) (q : QrRender)
    → render_qr k payload level ≡ ok q
    → q.text ≡ to_base45 payload
unfolding render_qr
render_qr-text k payload level q h =
    let (symbol, created, h1) = >>=-eq-ok (k.create (to_base45 payload) (chosen_level level)) _ h in
    let (mode, only, h2) = >>=-eq-ok (only_segment symbol.segment_modes) _ h1 in
    let (url, drawn, h3) =
      >>=-eq-ok (k.to_data_url (to_base45 payload) (chosen_level level)) _ h2 in
    sym (ap (λ r. r.text) (ok-injective h3))

-- For a payload of at least one byte that `renderQr` renders, a scanner that has its video and is
-- not stopped, and turns of which the first k show neither engine a code and the next one shows
-- either engine a frame of some size with the one code that holds the rendered text, k + 1 turns
-- are enough for `next` to answer, with the payload, the rendered text and the engine of the
-- scanner.
pub next-render_qr :
    (encoder : QrEncoder) (payload : List ℕ) (level : Option EcLevel) (q : QrRender)
    (s : CameraScanner) (turns : ℕ → Turn) (k : ℕ)
    → All IsByte payload
    → 0 < length payload
    → render_qr encoder payload level ≡ ok q
    → s.has_video ≡ true
    → s.is_aborted ≡ false
    → ((j : ℕ) → j < k → Blank (turns j))
    → Shows q.text (turns k)
    → Read payload q.text s.engine (next (suc k) turns s)
unfolding next
next-render_qr encoder payload level q s turns k low some_byte rendered filming going blank shows =
    let text = render_qr-text encoder payload level q rendered in
    let some_text : 0 < length q.text =
      omega (arith, ap length text, length-to_base45 payload, some_byte) in
    let films =
      ap
        (λ b.
          if b
          then scan_frames (suc k) turns 0 s
          else some (err (vadum_error internal_not_applicable), s))
        filming in
    let (ms, s', e) =
      scan_frames-Shows k turns 0 k s payload q.text (omega arith)
        (λ j from_start before. blank j before) shows going some_text
        (ap from_base45 text ∙ from_base45-to_base45 payload low) in
    (ms, s', films ∙ e)
