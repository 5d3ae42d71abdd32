-- ===== src/ClientIp/Tests.antt =====
-- A client that forges its address.
use byte_bucket.Prelude.{[], ◌∷◌, Option, none, some, if◌then◌else◌, nat_equality, list_equality}
use byte_bucket.Bytes.{Bytes, bytes, has_byte}
use byte_bucket.ClientIp.{Request, Net}

dotted : Bytes → Option Bytes
unfolding has_byte
dotted s = if has_byte b'.' s then some s else none

abbrev net : Net
net = record { parse_ip = dotted; split_host_port = λ s. some s }

abbrev request : Request
request = record {
  header_values = λ name. bytes "1.1.1.1" ∷ bytes "6.6.6.6, 2.2.2.2" ∷ [];
  remote_addr = bytes "9.9.9.9";
}

abbrev peer : Bytes
peer = bytes " 2.2.2.2"
