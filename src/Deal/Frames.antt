-- ===== src/Deal/Frames.antt =====
-- The loop of a direction takes whole frames off the stream, however the bytes come.
use grpcreplay.Base.{ℕ, ◌+◌, ◌≤◌, ◌≡◌, Bool, [], Bytes, length}
use grpcreplay.Packages.{SkipList, Hpack, Codecs}
use grpcreplay.TcpBuffer.{TcpBuffer, pending}
use grpcreplay.Frame.{FrameBase}
use grpcreplay.Stream.{Finder, Stamp}
use grpcreplay.Conn.{Http2Conn}
use grpcreplay.Deal.{reading_header, whole_frame}
use grpcreplay.Deal.Reads.{IsOpen}
use grpcreplay.Deal.Gather.{deal_run, with_buffer}

module _ ⦃s : SkipList⦄ ⦃h : Hpack⦄ ⦃c : Codecs⦄ (side : Bool) (finder : Finder)
    (stamp : Stamp) where
  -- The bytes of a frame's header, and those of its payload.
  abbrev pub FrameRead : (ℕ → Bool) → Http2Conn → FrameBase → Bytes → Bytes → Bytes → Type 0
  FrameRead pick hc fb header payload rest =
      (n : ℕ) × (b : TcpBuffer) × (n ≤ length header + length payload)
      × (deal_run side finder stamp n pick (hc, reading_header [])
          ≡ whole_frame finder stamp (with_buffer side finder stamp hc b) fb payload)
      × (pending b ≡ rest)
      × IsOpen b
