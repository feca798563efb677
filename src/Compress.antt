-- ===== src/Compress.antt =====
-- pkg/compress/compress.go: gzip and base64 around a text.
pub mod Laws
use cluster_api_provider_vcl.Base.{String}
use cluster_api_provider_vcl.Runtime.{Result, ok, and_then}

-- The standard library's writers and readers on buffers in memory, over its bytes `D`. A writer is
-- what it and its buffer hold after the calls so far.
pub record Gzip (D S R : Type 0) : Type 0 where
  pub new_writer : S
  pub write : D → S → Result S
  pub flush : S → Result S
  pub close : S → Result S
  pub buffer : S → D
  pub new_reader : D → Result R
  pub read_all : R → Result D

-- base64, and the conversions between strings and bytes
pub record Text (D : Type 0) : Type 0 where
  pub encode : D → String
  pub decode : String → Result D
  pub bytes_of : String → D
  pub string_of : D → String

module _ {D S R : Type 0} (g : Gzip D S R) (t : Text D) where
  unfoldable pub compress : String → Result String
  compress s = and_then (g.write (t.bytes_of s) g.new_writer) λ written.
      and_then (g.flush written)
        λ flushed. and_then (g.close flushed) λ closed. ok (t.encode (g.buffer closed))

  unfoldable pub uncompress : String → Result String
  uncompress s = and_then (t.decode s) λ decoded.
      and_then (g.new_reader decoded)
        λ reader. and_then (g.read_all reader) λ decompressed. ok (t.string_of decompressed)
