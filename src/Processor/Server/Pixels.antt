-- ===== src/Processor/Server/Pixels.antt =====
-- The pixels of the answers of the processor.
use vkr.Prelude.{
  ℕ, ◌*◌, ◌^◌, ◌<◌, ◌≡◌, refl, ◌∙◌, true, Option, List, [], some, arith, length, ◌>>=◌,
}
use vkr.Prelude.Int.{pos, int64, ◌*ℤ◌}
use vkr.Prelude.Text.{Text}
use vkr.Media.{FilterType, MediaChunk, ProcessedChunk}
use vkr.Processor.{Floats}
use vkr.Processor.Loops.{Gives, Gives-bind}
use vkr.Processor.Picture.{IsPicture}
use vkr.Processor.Blur.{kernel_size, generate_gaussian_kernel}
use vkr.Processor.Blur.Paint.{IsPainted}
use vkr.Processor.Blur.Exact.{blurred, IsBlurred, gaussian_blur-IsBlurred}
use vkr.Processor.Filters.Total.{AreGray, grayscale-AreGray}
use vkr.Processor.Filters.Sharp.{sharpened, sharpen-IsPicture}
use vkr.Processor.Filters.Edge.{edge, edge_detect-IsPicture}
use vkr.Processor.Server.{
  Server, Round, has_size, is_supported, settings, blur, apply_filter, processed, process_chunk,
}
use vkr.Processor.Server.Laws.{has_size-exact}

module _ (f : Floats) where
  open f use {F32}

  -- A blur of the radius, with the kernel that is generated in some buffer of the pool.
  abbrev IsBlur : F32 → Text → ℕ → ℕ → Text → Type 0
  IsBlur radius input w h out =
      (buffer : List F32) × (kernel : List F32) × (generate_gaussian_kernel f buffer
          (kernel_size f radius) radius
        ≡ some kernel)
      × IsPainted w h (blurred f kernel (kernel_size f radius) input w h) out

  -- What the filters promise of their output's pixels; a filter that is not known is the blur.
  abbrev pub AreFiltered : FilterType → F32 → F32 → Text → ℕ → ℕ → Text → Type 0
  AreFiltered FilterType.grayscale radius k input w h out = AreGray f input (w * h) out
  AreFiltered FilterType.sharpen radius k input w h out = IsPicture w h (sharpened f input w k) out
  AreFiltered FilterType.edge_detect radius k input w h out = IsPicture w h (edge f input w) out
  AreFiltered FilterType.gaussian_blur radius k input w h out = IsBlur radius input w h out
  AreFiltered FilterType.unspecified radius k input w h out = IsBlur radius input w h out
  AreFiltered (FilterType.unknown n) radius k input w h out = IsBlur radius input w h out

  -- A frame that is as long as the frame that it is made of, with the filter's pixels.
  abbrev pub IsFiltered : FilterType → F32 → F32 → Text → ℕ → ℕ → Text → Type 0
  IsFiltered filter radius k input w h out =
      (length out ≡ w * h * 3) × AreFiltered filter radius k input w h out

  module _ (round : Round f) (input : Text) (w h : ℕ) (s : Server) (small : w * h * 3 < 2 ^ 63)
      (size : length input ≡ w * h * 3) (len : length round.kernel ≡ 31) where
    blur-IsBlur :
        (radius : F32)
        → Gives
            (λ (out : Text × Server). (length out.0 ≡ w * h * 3) × IsBlur radius input w h out.0)
            (blur f round input (pos w) (pos h) radius s)
    unfolding blur
    blur-IsBlur radius =
        Gives-bind (IsBlurred f input w h radius round.kernel)
          (λ (out : Text × Server). (length out.0 ≡ w * h * 3) × IsBlur radius input w h out.0) _ _
          (gaussian_blur-IsBlurred f input w h radius round.kernel size small len)
          (λ out p. (_, refl, (p.same_length, (round.kernel, out.1, p.generated, p.pixels))))

    kept-IsFiltered :
        (filter : FilterType) (radius k : F32) (o : Option Text)
        → Gives (IsFiltered filter radius k input w h) o
        → Gives
            (λ (out : Text × Server). IsFiltered filter radius k input w h out.0)
            (o >>= (λ output. some (output, s)))
    kept-IsFiltered filter radius k o p =
        Gives-bind (IsFiltered filter radius k input w h)
          (λ out. IsFiltered filter radius k input w h out.0) o _ p (λ out q. (_, refl, q))

    apply_filter-IsFiltered :
        (filter : FilterType) (radius k : F32)
        → Gives
            (λ out. IsFiltered filter radius k input w h out.0)
            (apply_filter f round filter input (pos w) (pos h) radius k s)
    unfolding apply_filter
    apply_filter-IsFiltered FilterType.gaussian_blur radius k = blur-IsBlur radius
    apply_filter-IsFiltered FilterType.unspecified radius k = blur-IsBlur radius
    apply_filter-IsFiltered (FilterType.unknown n) radius k = blur-IsBlur radius
    apply_filter-IsFiltered FilterType.grayscale radius k =
        kept-IsFiltered FilterType.grayscale radius k _
          (grayscale-AreGray f input w h size (omega arith))
    apply_filter-IsFiltered FilterType.sharpen radius k =
        kept-IsFiltered FilterType.sharpen radius k _ (sharpen-IsPicture f input w h k size)
    apply_filter-IsFiltered FilterType.edge_detect radius k =
        kept-IsFiltered FilterType.edge_detect radius k _
          (edge_detect-IsPicture f input w h size (omega arith))

  filtered-IsFiltered :
      (round : Round f) (chunk : MediaChunk F32) (s : Server) (w h : ℕ)
      → chunk.width ≡ pos w
      → chunk.height ≡ pos h
      → length chunk.bytes ≡ w * h * 3
      → length chunk.bytes < 2 ^ 63
      → length round.kernel ≡ 31
      → Gives
          (λ (out : Text × Server).
            IsFiltered
              (settings f chunk.params).0
              (settings f chunk.params).1
              (settings f chunk.params).2
              chunk.bytes
              w
              h
              out.0)
          (apply_filter f round
            (settings f chunk.params).0
            chunk.bytes
            chunk.width
            chunk.height
            (settings f chunk.params).1
            (settings f chunk.params).2
            s)
  filtered-IsFiltered round chunk s w h ew eh exact small len =
      rw (ew, eh)
        (apply_filter-IsFiltered round chunk.bytes w h s (omega (arith, exact)) exact len
          (settings f chunk.params).0 (settings f chunk.params).1 (settings f chunk.params).2)

  -- A success for a chunk, with the frame that its filter makes.
  pub record Succeeds (chunk : MediaChunk F32) (w h : ℕ) (answer : ProcessedChunk × Server)
      : Type 0 where
    pub success : answer.0.success ≡ true
    pub same_id : answer.0.sequence_id ≡ chunk.sequence_id
    pub no_error : answer.0.error_message ≡ []
    pub frame :
        IsFiltered
          (settings f chunk.params).0
          (settings f chunk.params).1
          (settings f chunk.params).2
          chunk.bytes
          w
          h
          answer.0.bytes

  -- `processChunk` answers a video or image of the right size with a success, and the frame in the
  -- answer has the pixels of the chunk's filter: the gray values, the sharpened picture or the edges,
  -- or the blur, each as its own description says. The filter, the radius and the intensity are
  -- those of the chunk's parameters, or the defaults. The chunk's data are shorter than 2 ^ 63 bytes,
  -- its width and height below 2 ^ 31, and the kernel from the pool has 31 elements.
  pub process_chunk-Succeeds :
      (round : Round f) (chunk : MediaChunk F32) (s : Server) (w h : ℕ)
      → chunk.width ≡ pos w
      → chunk.height ≡ pos h
      → w < 2 ^ 31
      → h < 2 ^ 31
      → is_supported chunk.type ≡ true
      → length chunk.bytes ≡ w * h * 3
      → length chunk.bytes < 2 ^ 63
      → length round.kernel ≡ 31
      → Gives (Succeeds chunk w h) (process_chunk f round chunk s)
  unfolding process_chunk processed
  process_chunk-Succeeds round chunk s w h ew eh w_lt h_lt supported exact small len =
      let size : has_size chunk.bytes (int64 (int64 (chunk.width *ℤ chunk.height) *ℤ pos 3))
          ≡ true =
        rw (ew, eh) (has_size-exact chunk.bytes w h w_lt h_lt small ∙ ground (arith, exact)) in
      rw (supported, size)
        (Gives-bind
          (λ (out : Text × Server).
            IsFiltered (settings f chunk.params).0 (settings f chunk.params).1
              (settings f chunk.params).2 chunk.bytes w h out.0)
          (Succeeds chunk w h) _ _ (filtered-IsFiltered round chunk s w h ew eh exact small len)
          (λ out p.
            (_, refl, record { success = refl; same_id = refl; no_error = refl; frame = p })))
