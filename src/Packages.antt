-- ===== src/Packages.antt =====
-- What the program takes from third-party packages, as parameters.
use grpcreplay.Protocol.{MsgItem, IsText, SameItem}
use grpcreplay.Base.{
  ℕ, ◌≡◌, ◌≢◌, All, [], List, Bool, Option, none, some, Bytes, ◌==◌, if◌then◌else◌,
}

-- The fields of gopacket's `layers.TCP` that the program reads.
pub record Tcp : Type 0 where
  pub src_port : ℕ
  pub dst_port : ℕ
  pub seq : ℕ
  pub ack : ℕ
  pub fin_flag : Bool
  pub syn_flag : Bool
  pub rst_flag : Bool
  pub psh_flag : Bool
  pub ack_flag : Bool
  pub urg_flag : Bool
  pub window : ℕ
  pub payload : Bytes

-- github.com/huandu/skiplist with the comparator `skiplist.Uint32`: an ordered map from numbers to
-- packets. `Get` finds what `Set` stored last under the key and `RemoveElement` has not removed.
pub record SkipList : Type 1 where
  pub Cache : Type 0
  pub new : Cache
  pub get : Cache → ℕ → Option Tcp
  pub set : Cache → ℕ → Tcp → Cache
  pub remove : Cache → ℕ → Cache
  pub get-new : (k : ℕ) → get new k ≡ none
  pub get-set :
      (c : Cache) (k j : ℕ) (p : Tcp) → get (set c k p) j ≡ (if k == j then some p else get c j)
  pub get-remove : (c : Cache) (k j : ℕ) → get (remove c k) j ≡ (if k == j then none else get c j)

-- golang.org/x/net/http2/hpack: `DecodeFull` turns a block of bytes into header fields and changes
-- the decoder's table.
pub record Hpack : Type 1 where
  pub Decoder : Type 0
  pub new_decoder : ℕ → Decoder
  pub decode_full : Decoder → Bytes → Decoder × Option (List (Bytes × Bytes))
  pub set_max_dynamic_table_size : Decoder → ℕ → Decoder

-- The codecs behind a message body: compress/gzip by the result of reading all of a stream, and
-- `proto.Unmarshal` followed by `protojson.Marshal` for a message type.
pub record Codecs : Type 1 where
  pub gunzip : Bytes → Option Bytes
  pub Descriptor : Type 0
  pub to_json : Descriptor → Bytes → Option Bytes

-- regexp: `Compile` of an expression, and `MatchString`.
pub record Regexps : Type 1 where
  pub Regexp : Type 0
  pub compile : Bytes → Option Regexp
  pub match_string : Regexp → Bytes → Bool

-- encoding/json for a pointer to a `MsgItem`: `Marshal`, and `Unmarshal` over a pointer to an empty
-- one. A marshalled value stands on one line and is not empty. What is marshalled is read back, where every string is
-- valid UTF-8 (others are altered): the same body, and headers that are the same map.
pub record Json : Type 0 where
  pub marshal_item : Option MsgItem → Option Bytes
  pub unmarshal_item : Bytes → Option (Option MsgItem)
  pub valid_string : Bytes → Bool
  pub one_line :
      (x : Option MsgItem) (b : Bytes) → marshal_item x ≡ some b → All (λ c. c ≢ b'\n') b × (b ≢ [])
  pub reads_back :
      (x : Option MsgItem) (b : Bytes)
      → IsText valid_string x
      → marshal_item x ≡ some b
      → (y : Option MsgItem) × (unmarshal_item b ≡ some y) × SameItem x y

-- The disk: `os.Open` with all that the file holds, and compress/gzip by what it unpacks.
pub record Disk : Type 0 where
  pub open_file : Bytes → Option Bytes
  pub gunzip : Bytes → Option Bytes
