-- ===== src/Examples/Subnets.antt =====
-- The theorem on internal/pkg/network/subnet.go at a concrete network.
use icn_nodus.Common.{itoa, ◌+◌, ◌-◌, ◌%◌, ◌^◌, ◌≤◌, ◌≡◌, refl, true, some, arith}
use icn_nodus.Effect.{ok}
use icn_nodus.Subnet.{Ip4, address_space, choose_subnet_len, virtual_networks}
use icn_nodus.Subnet.Covering.{span, side_by_side, IsNext, virtual_networks-covers}

abbrev lib : Ip4
lib = record {
  contains_ip = λ ip prefix_len other. true;
  next_network = λ ip prefix_len. (ip + 2 ^ (32 - prefix_len)) % address_space;
  text = itoa;
}

lib-IsNext : IsNext lib
lib-IsNext ip prefix_len h = refl

len_24 : choose_subnet_len 16 0 ≡ ok 24
unfolding choose_subnet_len
len_24 = refl

-- 10.0.0.0/16
virtual_networks-covers_example :
    (virtual_networks lib 167772160 16 24
      ≡ some (side_by_side lib 24 (2 ^ (32 - 24)) (2 ^ (24 - 16)) 167772160))
    × (span (2 ^ (32 - 24)) (2 ^ (24 - 16)) ≡ 2 ^ (32 - 16))
    × (4 ≤ 2 ^ (24 - 16))
virtual_networks-covers_example =
    virtual_networks-covers lib 167772160 16 0 24 lib-IsNext len_24 (omega arith) (omega arith)
