-- ===== src/RawInput/Setup.antt =====
-- What the raw input knows when it starts.
use grpcreplay.Base.{
  zero, suc, ltb, ◌≡◌, refl, Bool, true, false, ◌||◌, Option, some, List, [], ◌∷◌, ◌++◌, arith,
  take-append_length, if◌then◌else◌, map, Bytes, bytes_key, ok,
}
use grpcreplay.Base.Int.{ℤ, pos, negsuc}
use grpcreplay.Base.Decimal.{atoi}
use grpcreplay.Base.Split.{last_index-append, Lacks}
use grpcreplay.Base.Text.{trim_space}
use grpcreplay.GoMap.Keys.{in_list, mem-nil}
use grpcreplay.ConnSet.{new_conn_set}
use grpcreplay.StringSet.{StringSet, has, add, new_string_set}
use grpcreplay.StringSet.Laws.{string_set_membership}
use grpcreplay.RawInput.{
  Interface, RawInput, ip_part, has_mtu, add_addrs, local_ips, any_host, device_list, new_raw_input,
}

-- An address as the system gives it: the IP, and the prefix length behind a slash.
pub record Cidr : Type 0 where
  pub ip : Bytes
  pub prefix : Bytes
  pub one_slash : Lacks b'/' prefix

abbrev pub addr_of : Cidr → Bytes
addr_of c = c.ip ++ (b'/' ∷ c.prefix)

pub record Nic : Type 0 where
  pub mtu : ℤ
  pub name : Bytes
  pub cidrs : List Cidr

abbrev pub interface_of : Nic → Interface
interface_of n = record { mtu = n.mtu; name = n.name; addrs = map addr_of n.cidrs }

abbrev pub ips_of : List Cidr → List Bytes
ips_of cs = map (λ (c : Cidr). c.ip) cs

-- An integer above 0.
abbrev pub positive : ℤ → Bool
positive (pos zero) = false
positive (pos (suc n)) = true
positive (negsuc n) = false

-- The IPs, and the names, of those with a positive MTU.
abbrev pub ips : List Nic → List Bytes
ips [] = []
ips (n ∷ ns) = (if positive n.mtu then ips_of n.cidrs else []) ++ ips ns

abbrev pub names : List Nic → List Bytes
names [] = []
names (n ∷ ns) = (if positive n.mtu then n.name ∷ [] else []) ++ names ns

has_mtu_lem : (n : Nic) → has_mtu (interface_of n) ≡ positive n.mtu
unfolding has_mtu
has_mtu_lem n = go n.mtu
  where
    go : (m : ℤ) → elim m [ pos k ↦ ltb 0 k | negsuc k ↦ false ] ≡ positive m
    go (pos zero) = refl
    go (pos (suc k)) = ground arith
    go (negsuc k) = refl

ip_part-addr_of : (c : Cidr) → ip_part (addr_of c) ≡ some c.ip
unfolding ip_part
ip_part-addr_of c =
    let e = last_index-append c.ip c.prefix b'/' c.one_slash in
    let t = take-append_length c.ip (b'/' ∷ c.prefix) in ground (arith, e, t)

add_addrs_lem :
    (cs : List Cidr) (set : StringSet)
    → (set' : StringSet) × (add_addrs set (map addr_of cs) ≡ some set')
      × ((x : Bytes) → has set' x ≡ (in_list (ips_of cs) x || has set x))
unfolding add_addrs in_list
add_addrs_lem [] set = (set, refl, λ x. refl)
add_addrs_lem (c ∷ cs) set =
    let (set', e, h) = add_addrs_lem cs (add set c.ip) in
    (
      set',
      ground (arith, ip_part-addr_of c, e),
      λ x. ground (arith, h x, (string_set_membership set set c.ip x []).0),
    )

in_list-append :
    (xs ys : List Bytes) (x : Bytes) → in_list (xs ++ ys) x ≡ (in_list xs x || in_list ys x)
unfolding in_list
in_list-append [] ys x = refl
in_list-append (y ∷ xs) ys x = ground (arith, in_list-append xs ys x)

mtu_addrs :
    (b : Bool) (n : Nic) (set : StringSet)
    → (set' : StringSet) × (add_addrs set (if b then map addr_of n.cidrs else []) ≡ some set')
      × ((x : Bytes) → has set' x ≡ (in_list (if b then ips_of n.cidrs else []) x || has set x))
unfolding add_addrs in_list
mtu_addrs true n set = add_addrs_lem n.cidrs set
mtu_addrs false n set = (set, refl, λ x. refl)

local_ips_lem :
    (ns : List Nic) (set : StringSet)
    → (set' : StringSet) × (local_ips set (map interface_of ns) ≡ some set')
      × ((x : Bytes) → has set' x ≡ (in_list (ips ns) x || has set x))
unfolding local_ips in_list
local_ips_lem [] set = (set, refl, λ x. refl)
local_ips_lem (n ∷ ns) set =
    let (set1, e1, h1) = mtu_addrs (positive n.mtu) n set in
    let (set2, e2, h2) = local_ips_lem ns set1 in
    (
      set2,
      ground (arith, has_mtu_lem n, e1, e2),
      λ x. ground (
        arith,
        h1 x,
        h2 x,
        in_list-append (if positive n.mtu then ips_of n.cidrs else []) (ips ns) x,
      ),
    )

device_list_any :
    (host : Bytes) (ns : List Nic)
    → any_host host ≡ true
    → device_list host (map interface_of ns) ≡ names ns
unfolding device_list
device_list_any host [] h = refl
device_list_any host (n ∷ ns) h = ground (arith, device_list_any host ns h, h, has_mtu_lem n)

has-new_string_set : (ip : Bytes) → has new_string_set ip ≡ false
unfolding has new_string_set
has-new_string_set ip = mem-nil ip

-- If the address is split into a host of any address and a number, and every address of the
-- interfaces has its prefix length behind a slash, then the raw input is made, it knows as local
-- exactly the IPs of the interfaces whose MTU is above 0, it listens on exactly these interfaces, each
-- once, and no connection is history yet.
pub new_raw_input_any :
    (split_host_port : Bytes → Option (Bytes × Bytes)) (address host port : Bytes) (n : ℤ)
    (record_response : Bool) (ns : List Nic)
    → split_host_port address ≡ some (host, port)
    → atoi port ≡ some n
    → any_host (trim_space host) ≡ true
    → (i : RawInput) × (new_raw_input split_host_port
          (some (map interface_of ns))
          address
          record_response
        ≡ ok i)
      × ((ip : Bytes) → has i.ip_set ip ≡ in_list (ips ns) ip)
      × (i.listener_list ≡ names ns)
      × (i.port ≡ n)
      × (i.conn_set ≡ new_conn_set)
unfolding new_raw_input
new_raw_input_any split_host_port address host port n record_response ns es ep any =
    let (set, e, h) = local_ips_lem ns new_string_set in
    (
      record {
        conn_set = new_conn_set;
        ip_set = set;
        port = n;
        output_chan = [];
        listener_list = device_list (trim_space host) (map interface_of ns);
        record_response = record_response;
      },
      ground (arith, es, ep, e),
      λ ip. ground (arith, h ip, has-new_string_set ip),
      device_list_any (trim_space host) ns any,
      refl,
      refl,
    )
