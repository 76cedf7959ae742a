-- ===== src/Processor/Server/Laws.antt =====
-- The server answers every chunk, and a stream's results come in the order of its chunks.
use vkr.Prelude.{
  ℕ, ◌+◌, ◌*◌, ◌^◌, ◌%◌, ◌<◌, ◌≡◌, refl, sym, ap, ◌∙◌, inl, inr, true, false, Option, some, arith,
  length, ◌==◌, ltb, ◌&&◌, if◌then◌else◌, Bool-cases, ◌>>=◌,
}
use vkr.Prelude.Int.{pos, int64, wrap, signed, ◌*ℤ◌}
use vkr.Prelude.Text.{Text}
use vkr.Media.{FilterType, MediaChunk, ProcessedChunk}
use vkr.Processor.{Floats}
use vkr.Processor.Loops.{Gives, Gives-bind}
use vkr.Processor.Blur.Total.{gaussian_blur-Gives}
use vkr.Processor.Filters.{grayscale}
use vkr.Processor.Filters.Total.{product, pixels_exact, grayscale-AreGray}
use vkr.Processor.Filters.Inner.{sharpen-Gives, edge_detect-Gives}
use vkr.Processor.Server.{
  Server, Round, has_size, is_supported, refused, settings, blur, apply_filter, processed,
  process_chunk,
}

pixels-lt : (w h : ℕ) → w < 2 ^ 31 → h < 2 ^ 31 → w * h < 2 ^ 62
pixels-lt w h w_lt h_lt = grind arith

-- A slice is never as long as a product that wraps.
has_size-signed :
    (bytes : Text) (n : ℕ)
    → length bytes < 2 ^ 63
    → has_size bytes (signed (2 ^ 63) n) ≡ (length bytes == n)
has_size-signed bytes n small = elim (Bool-cases (ltb n (2 ^ 63))) [
  | inl below ↦ rw below refl
  | inr above ↦ rw above (ground arith)
]

pub has_size-exact :
    (bytes : Text) (w h : ℕ)
    → w < 2 ^ 31
    → h < 2 ^ 31
    → length bytes < 2 ^ 63
    → has_size bytes (int64 (int64 (pos w *ℤ pos h) *ℤ pos 3)) ≡ (length bytes == w * h * 3)
unfolding wrap
has_size-exact bytes w h w_lt h_lt small =
    let lt = pixels-lt w h w_lt h_lt in
    let whole : w * h * 3 % 2 ^ 64 ≡ w * h * 3 = omega (arith, lt) in
    rw (pixels_exact w h (omega (arith, lt)), product (w * h) 3, whole)
      (has_size-signed bytes (w * h * 3) small)

module _ (f : Floats) where
  open f use {F32}

  -- The output of a filter has `n` bytes, and no frame is counted yet.
  abbrev pub Filtered : ℕ → Server → Text × Server → Type 0
  Filtered n s (output, s') = (length output ≡ n) × (s'.frames_processed ≡ s.frames_processed)

  kept-Gives :
      (n : ℕ) (s : Server) (o : Option Text)
      → Gives (λ out. length out ≡ n) o
      → Gives (Filtered n s) (o >>= (λ output. some (output, s)))
  kept-Gives n s o h =
      Gives-bind (λ out. length out ≡ n) (Filtered n s) o _ h (λ out e. (_, refl, (e, refl)))

  module _ (round : Round f) (input : Text) (w h : ℕ) (s : Server)
      (small : w * h * 3 < 2 ^ 63) where
    blur-Gives :
        (radius : F32)
        → length round.kernel ≡ 31
        → Gives (Filtered (w * h * 3) s) (blur f round input (pos w) (pos h) radius s)
    unfolding blur
    blur-Gives radius len =
        Gives-bind (λ out. (length (out.0) ≡ w * h * 3) × (length (out.1) ≡ 31))
          (Filtered (w * h * 3) s) _ _
          (gaussian_blur-Gives f input w h radius round.kernel small len)
          (λ out p. (_, refl, (p.0, refl)))

    pub apply_filter-Gives :
        (filter : FilterType) (radius intensity : F32)
        → length round.kernel ≡ 31
        → length input ≡ w * h * 3
        → Gives
            (Filtered (w * h * 3) s)
            (apply_filter f round filter input (pos w) (pos h) radius intensity s)
    unfolding apply_filter
    apply_filter-Gives FilterType.gaussian_blur radius intensity len size = blur-Gives radius len
    apply_filter-Gives FilterType.unspecified radius intensity len size = blur-Gives radius len
    apply_filter-Gives (FilterType.unknown n) radius intensity len size = blur-Gives radius len
    apply_filter-Gives FilterType.grayscale radius intensity len size =
        let (out, ran, p) = grayscale-AreGray f input w h size (omega arith) in
        kept-Gives (w * h * 3) s (grayscale f input (pos w) (pos h)) (out, ran, p.0)
    apply_filter-Gives FilterType.sharpen radius intensity len size =
        kept-Gives (w * h * 3) s _ (sharpen-Gives f input w h intensity size)
    apply_filter-Gives FilterType.edge_detect radius intensity len size =
        kept-Gives (w * h * 3) s _ (edge_detect-Gives f input w h size (omega arith))

  -- What the answer to a chunk is.
  pub record IsAnswer (w h : ℕ) (chunk : MediaChunk F32) (s : Server)
      (answer : ProcessedChunk × Server) : Type 0 where
    pub same_id : answer.0.sequence_id ≡ chunk.sequence_id
    pub success : answer.0.success ≡ (is_supported chunk.type && (length chunk.bytes == w * h * 3))
    pub frame : answer.0.success ≡ true → length answer.0.bytes ≡ length chunk.bytes
    pub counted :
        answer.1.frames_processed ≡ s.frames_processed + (if answer.0.success then 1 else 0)
    pub refused : answer.0.success ≡ false → answer.1 ≡ s

  filtered :
      (round : Round f) (chunk : MediaChunk F32) (s : Server) (w h : ℕ)
      → chunk.width ≡ pos w
      → chunk.height ≡ pos h
      → length chunk.bytes ≡ w * h * 3
      → length round.kernel ≡ 31
      → length chunk.bytes < 2 ^ 63
      → Gives (Filtered (w * h * 3) s) (
          apply_filter f round
            ((settings f chunk.params).0)
            chunk.bytes
            chunk.width
            chunk.height
            ((settings f chunk.params).1)
            ((settings f chunk.params).2)
            s)
  filtered round chunk s w h ew eh exact len small =
      rw (ew, eh)
        (apply_filter-Gives round chunk.bytes w h s (omega arith) ((settings f chunk.params).0)
          ((settings f chunk.params).1) ((settings f chunk.params).2) len exact)

  refused-IsAnswer :
      (w h : ℕ) (chunk : MediaChunk F32) (s : Server) (message : Text)
      → (is_supported chunk.type && (length chunk.bytes == w * h * 3)) ≡ false
      → IsAnswer w h chunk s (refused chunk.sequence_id message, s)
  refused-IsAnswer w h chunk s message e = record {
    same_id = refl;
    success = sym e;
    frame = λ p. cc;
    counted = omega arith;
    refused = λ p. refl;
  }

  processed-IsAnswer :
      (round : Round f) (w h : ℕ) (chunk : MediaChunk F32) (s : Server) (out : Text × Server)
      → length chunk.bytes ≡ w * h * 3
      → is_supported chunk.type ≡ true
      → Filtered (w * h * 3) s out
      → IsAnswer w h chunk s (processed f round chunk.sequence_id out)
  unfolding processed
  processed-IsAnswer round w h chunk s (output, s') exact supported (len, same) = record {
    same_id = refl;
    success = rw supported (ground (arith, exact));
    frame = λ p. len ∙ sym exact;
    counted = ap (λ n. n + 1) same;
    refused = λ p. cc;
  }

  -- `processChunk` answers every chunk whose width and height are not negative, whatever its type,
  -- parameters and data, and does not panic. The answer has the chunk's sequence number. It is a
  -- success just if the type is video or image and the data have width * height * 3 bytes; then it has
  -- as many bytes as the chunk and one frame is counted. Otherwise no counter changes. The width and
  -- height are below 2 ^ 31, the data shorter than 2 ^ 63, and the kernel from the pool has 31 elements.
  pub process_chunk-IsAnswer :
      (round : Round f) (chunk : MediaChunk F32) (s : Server) (w h : ℕ)
      → chunk.width ≡ pos w
      → chunk.height ≡ pos h
      → w < 2 ^ 31
      → h < 2 ^ 31
      → length chunk.bytes < 2 ^ 63
      → length round.kernel ≡ 31
      → Gives (IsAnswer w h chunk s) (process_chunk f round chunk s)
  unfolding process_chunk
  process_chunk-IsAnswer round chunk s w h ew eh w_lt h_lt small len =
      let size : has_size chunk.bytes (int64 (int64 (chunk.width *ℤ chunk.height) *ℤ pos 3))
          ≡ (length chunk.bytes == w * h * 3) =
        rw (ew, eh) (has_size-exact chunk.bytes w h w_lt h_lt small) in
      elim (Bool-cases (is_supported chunk.type)) [
        | inr other ↦ rw other (_, refl, refused-IsAnswer w h chunk s _ (rw other refl))
        | inl supported ↦ elim (Bool-cases (length chunk.bytes == w * h * 3)) [
          | inr wrong ↦
              rw (supported, size, wrong)
                (_, refl, refused-IsAnswer w h chunk s _ (rw (supported, wrong) refl))
          | inl right ↦
              let exact : length chunk.bytes ≡ w * h * 3 = ground arith in
              rw (supported, size, right)
                (Gives-bind (Filtered (w * h * 3) s) (IsAnswer w h chunk s) _ _
                  (filtered round chunk s w h ew eh exact len small)
                  (λ out p. (_, refl, processed-IsAnswer round w h chunk s out exact supported p)))
        ]
      ]
