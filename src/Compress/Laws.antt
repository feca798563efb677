-- ===== src/Compress/Laws.antt =====
-- A text that is compressed is got back.
use cluster_api_provider_vcl.Base.{◌≡◌, refl, String}
use cluster_api_provider_vcl.Runtime.{ok}
use cluster_api_provider_vcl.Compress.{Gzip, Text, compress, uncompress}

-- What the library says of a writer on a buffer: no call fails, and what a reader finds in the
-- buffer of a closed writer is what was written. `written` is what has been written so far.
pub record GzipLaws {D S R : Type 0} (g : Gzip D S R) (written : S → D) : Type 0 where
  pub write : (d : D) → (s : S) × (g.write d g.new_writer ≡ ok s) × (written s ≡ d)
  pub flush : (s : S) → (s' : S) × (g.flush s ≡ ok s') × (written s' ≡ written s)
  pub close :
      (s : S)
      → (s' : S) × (g.close s ≡ ok s')
        × ((r : R) × (g.new_reader (g.buffer s') ≡ ok r) × (g.read_all r ≡ ok (written s)))

pub record TextLaws {D : Type 0} (t : Text D) : Type 0 where
  pub decode-encode : (d : D) → t.decode (t.encode d) ≡ ok d
  pub string-bytes : (s : String) → t.string_of (t.bytes_of s) ≡ s

module _ {D S R : Type 0} (g : Gzip D S R) (t : Text D) (written : S → D) (gl : GzipLaws g written)
    (tl : TextLaws t) where
  -- Every text is compressed, and what `Compress` gives is uncompressed to the text.
  pub uncompress-compress :
      (s : String)
      → (packed : String) × (compress g t s ≡ ok packed) × (uncompress g t packed ≡ ok s)
  unfolding compress uncompress
  uncompress-compress s =
      let (w, p, x) = gl.write (t.bytes_of s) in
      let (f, q, y) = gl.flush w in
      let (c, r, (reader, a, b)) = gl.close f in
      (
        t.encode (g.buffer c),
        rw (p, q, r) refl,
        rw (tl.decode-encode (g.buffer c), a, b, y, x, tl.string-bytes s) refl,
      )
