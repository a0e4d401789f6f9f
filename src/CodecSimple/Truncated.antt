-- ===== src/CodecSimple/Truncated.antt =====
-- A text that was cut off.
use grpcreplay.Base.{◌≡◌, refl, ◌∷◌, ◌++◌, panic}
use grpcreplay.Base.Split.{split-append, split_whole}
use grpcreplay.Packages.{Json}
use grpcreplay.Protocol.{Message}
use grpcreplay.CodecSimple.{meta_line, unmarshal}
use grpcreplay.CodecSimple.RoundTrip.{IsWritable, one_line, parse_meta-meta_line}

module _ ⦃j : Json⦄ where
  -- The first line of a message alone, and its first two lines alone, which a file has if it ends
  -- in the midst of a message, are no error to `Unmarshal`: it indexes the lines out of range and panics.
  pub unmarshal_truncated :
      (m : Message)
      → IsWritable m
      → (unmarshal (meta_line m.meta) ≡ panic)
        × (unmarshal (meta_line m.meta ++ (b'\n' ∷ m.method)) ≡ panic)
  unfolding unmarshal
  unmarshal_truncated m w =
      let line = one_line m.meta w.uuid_line in
      let first = parse_meta-meta_line m.meta w.version w.timestamp w.uuid_word in
      (
        rw (split_whole (meta_line m.meta) b'\n' line, first) refl,
        rw
            (
              split-append (meta_line m.meta) m.method b'\n' line,
              split_whole m.method b'\n' w.method_line,
              first,
            )
            refl,
      )
