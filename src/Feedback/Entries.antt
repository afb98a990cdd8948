-- ===== src/Feedback/Entries.antt =====
-- Bodies that hold whole entries one behind the other.
use mathlib.Core.List.{append-nil}
use hashiverse.Prelude.{
  ℕ, ◌*◌, ◌≡◌, refl, sym, ap, ◌∙◌, arith, List, [], ◌∷◌, ◌++◌, map, length, length-append, take,
  drop, Result, ok, All,
}
use hashiverse.Buffer.{take-append, drop-append}
use hashiverse.Feedback.{
  EncodedPostFeedback, View, entry_size, encode_to_bytes, decode_from_bytes, from_slice, chunks,
  iter,
}
use hashiverse.Feedback.Codec.{
  IsFeedback, length-encode_to_bytes, decode_from_bytes-encode_to_bytes, from_slice-encode_to_bytes,
}

unfoldable pub encode_all : List EncodedPostFeedback → List ℕ
encode_all [] = []
encode_all (f ∷ fs) = encode_to_bytes f ++ encode_all fs

pub length-encode_all :
    (fs : List EncodedPostFeedback) → All IsFeedback fs → length (encode_all fs) ≡ 43 * length fs
unfolding encode_all
length-encode_all [] h = refl
length-encode_all (f ∷ fs) h = omega (
  arith,
  length-append (encode_to_bytes f) (encode_all fs),
  length-encode_to_bytes f h.0,
  length-encode_all fs h.1,
)

pub take-encode_all :
    (f : EncodedPostFeedback) (fs : List EncodedPostFeedback)
    → IsFeedback f
    → take entry_size (encode_all (f ∷ fs)) ≡ encode_to_bytes f
unfolding encode_all
take-encode_all f fs h =
    take-append 43 (encode_to_bytes f) (encode_all fs) (length-encode_to_bytes f h)

pub drop-encode_all :
    (f : EncodedPostFeedback) (fs : List EncodedPostFeedback)
    → IsFeedback f
    → drop entry_size (encode_all (f ∷ fs)) ≡ encode_all fs
unfolding encode_all
drop-encode_all f fs h =
    drop-append 43 (encode_to_bytes f) (encode_all fs) (length-encode_to_bytes f h)

pub decode_from_bytes-exact :
    (f : EncodedPostFeedback) → IsFeedback f → decode_from_bytes (encode_to_bytes f) ≡ ok (f, [])
decode_from_bytes-exact f h =
    ap decode_from_bytes (sym (append-nil (encode_to_bytes f)))
    ∙ decode_from_bytes-encode_to_bytes f [] h

-- Views of whole entries.
unfoldable pub views : List EncodedPostFeedback → List (Result View)
views [] = []
views (f ∷ fs) = ok (encode_to_bytes f) ∷ views fs

chunks-encode_all :
    (fs : List EncodedPostFeedback)
    → All IsFeedback fs
    → map from_slice (chunks (length fs) (encode_all fs)) ≡ views fs
unfolding chunks views
chunks-encode_all [] h = refl
chunks-encode_all (f ∷ fs) h =
    rw
      (
        take-encode_all f fs h.0,
        drop-encode_all f fs h.0,
        from_slice-encode_to_bytes f h.0,
        chunks-encode_all fs h.1,
      )
      refl

pub iter-encode_all :
    (fs : List EncodedPostFeedback) → All IsFeedback fs → iter (encode_all fs) ≡ views fs
unfolding iter
iter-encode_all fs h =
    ap (λ n. map from_slice (chunks n (encode_all fs))) (omega (arith, length-encode_all fs h))
    ∙ chunks-encode_all fs h
