-- ===== src/HttpIngest/Whole.antt =====
-- Whole lines: how a line without NUL or line feed reaches its handler, and what the handlers of the
-- body do with it.
use esp32s3_inmp.Base.{
  ℕ, ◌+◌, ◌-◌, ◌<◌, ◌≡◌, refl, sym, ◌∙◌, ap, true, Bytes, [], ◌∷◌, ◌++◌, append_assoc, append-nil,
  arith, length, length-append,
}
use esp32s3_inmp.HttpIngest.Line.{AllPlain, strip_cr, c_str, parse_chunk_size, size_max}
use esp32s3_inmp.HttpIngest.{
  chunk_size, chunk_data, chunk_crlf, trailer, done, HttpIngest, Callbacks, line_done, line_max,
  size_done, line_done_in,
}
use esp32s3_inmp.HttpIngest.Feed.{is_line_state, pushes, push_char, push_newline}

pub c_str_plain : (s : Bytes) → AllPlain s → c_str s ≡ s
unfolding c_str
c_str_plain [] p = refl
c_str_plain (c ∷ s) (p, ps) = ground (arith, c_str_plain s ps, p)

strip_cr-append : (s : Bytes) → strip_cr (s ++ (13 ∷ [])) ≡ s
unfolding strip_cr
strip_cr-append [] = refl
strip_cr-append (c ∷ []) = refl
strip_cr-append (c ∷ d ∷ s) = ap (λ t. c ∷ t) (strip_cr-append (d ∷ s))

module _ {U : Type 0} (cb : Callbacks U) where
  -- Plain characters of a line that has room for them.
  push_text :
      (t : Bytes) (ing : HttpIngest U) (rest : Bytes)
      → is_line_state ing.state ≡ true
      → AllPlain t
      → length ing.line + length t < line_max
      → pushes cb ing (t ++ rest) ≡ pushes cb (record ing { line = ing.line ++ t }) rest
  unfolding pushes
  push_text [] ing rest h p lt =
      ap (λ l. pushes cb (record ing { line = l }) rest) (sym (append-nil ing.line))
  push_text (c ∷ t) ing rest h (pc, p) lt =
      ap (λ i. pushes cb i (t ++ rest)) (push_char cb ing c h (ground arith) (ground arith))
      ∙ (push_text t (record ing { line = ing.line ++ (c ∷ []) }) rest h p
            (omega (arith, length-append ing.line (c ∷ [])))
          ∙ ap (λ l. pushes cb (record ing { line = l }) rest) (append_assoc ing.line (c ∷ []) t))

  -- A whole line, with its CRLF, read from its start.
  pub push_whole :
      (t : Bytes) (ing : HttpIngest U) (rest : Bytes)
      → is_line_state ing.state ≡ true
      → ing.line ≡ []
      → AllPlain t
      → length t < line_max - 1
      → pushes cb ing (t ++ (b'\r' ∷ b'\n' ∷ rest))
        ≡ pushes cb (line_done cb (record ing { line = t })) rest
  unfolding pushes
  push_whole t ing rest h e p lt =
      push_text t ing (b'\r' ∷ b'\n' ∷ rest) h p (omega (arith, ap length e))
      ∙ (ap (λ l. pushes cb (record ing { line = l ++ t }) (b'\r' ∷ b'\n' ∷ rest)) e
          ∙ (ap (λ i. pushes cb i (b'\n' ∷ rest))
                (push_char cb (record ing { line = t }) b'\r' h refl (ground arith))
              ∙ ap (λ i. pushes cb i rest)
                  (push_newline cb (record ing { line = t ++ (b'\r' ∷ []) }) b'\n' h refl
                    ∙ ap (λ l. line_done cb (record ing { line = l })) (strip_cr-append t))))

  -- The line of a chunk size.
  pub line_done_size :
      (ing : HttpIngest U) (n : ℕ)
      → ing.state ≡ chunk_size
      → parse_chunk_size (c_str ing.line) ≡ n
      → 0 < n
      → n < size_max
      → line_done cb ing ≡ record ing { line = []; chunk_remaining = n; state = chunk_data }
  unfolding line_done line_done_in size_done
  line_done_size ing n st e pos lt = ground arith

  -- The line of the last chunk.
  pub line_done_last :
      (ing : HttpIngest U)
      → ing.state ≡ chunk_size
      → parse_chunk_size (c_str ing.line) ≡ 0
      → line_done cb ing ≡ record ing { line = []; state = trailer }
  unfolding line_done line_done_in size_done
  line_done_last ing st e = ground arith

  -- The CRLF behind the payload of a chunk.
  pub line_done_crlf :
      (ing : HttpIngest U)
      → ing.state ≡ chunk_crlf
      → ing.line ≡ []
      → line_done cb ing ≡ record ing { line = []; state = chunk_size }
  unfolding line_done line_done_in
  line_done_crlf ing st e = ground arith

  -- The line behind the last chunk.
  pub line_done_trailer :
      (ing : HttpIngest U)
      → ing.state ≡ trailer
      → line_done cb ing ≡ record ing { line = []; complete = true; state = done }
  unfolding line_done line_done_in
  line_done_trailer ing st = ground arith
