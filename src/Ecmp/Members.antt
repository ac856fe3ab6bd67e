-- ===== src/Ecmp/Members.antt =====
-- Members and their ports, in the calls of ecmp_group02_init_4p (switch_ecmp_group2.c).
use igw_p.Prelude.{
  ℕ, ◌+◌, ◌*◌, ◌<◌, true, ◌&&◌, List, [], ◌∷◌, Option, none, some, ◌≡◌, refl, arith, ◌==◌,
  if◌then◌else◌, get_or, every, every-lt, holds, holds→≡,
}
use igw_p.Ecmp.{
  Call, profile_add, selector_entry, group_add, pipe0_memberid_val, pipe2_memberid_val,
  pipe0_devport_val, pipe2_devport_val, ecmp_group02_init_4p,
}

-- The egress port that the calls before give a member, if they add it
pub port_of_member : ℕ → List Call → Option ℕ
port_of_member m [] = none
port_of_member m (profile_add id port ∷ cs) = if id == m then some port else port_of_member m cs
port_of_member m (selector_entry g n ids sts add ∷ cs) = port_of_member m cs
port_of_member m (group_add p e b k g ∷ cs) = port_of_member m cs

pipe0_table :
    every 16 (λ j.
      holds (port_of_member (get_or pipe0_memberid_val j 0) ecmp_group02_init_4p) (4 * j)
      && get_or pipe0_devport_val j 0 == 4 * j)
    ≡ true
unfolding every port_of_member pipe0_memberid_val ecmp_group02_init_4p pipe0_devport_val
pipe0_table = refl

pipe2_table :
    every 16 (λ j.
      holds (port_of_member (get_or pipe2_memberid_val j 0) ecmp_group02_init_4p) (256 + 4 * j)
      && get_or pipe2_devport_val j 0 == 256 + 4 * j)
    ≡ true
unfolding every port_of_member pipe2_memberid_val ecmp_group02_init_4p pipe2_devport_val
pipe2_table = refl

-- On the four-pipe model, the member at index `j` of pipe 0's arrays sends to device port `4 * j`,
-- which is the port that stands at `j` in `pipe0_devport_val`.
pub pipe0_member_port :
    (j : ℕ)
    → j < 16
    → (port_of_member (get_or pipe0_memberid_val j 0) ecmp_group02_init_4p ≡ some (4 * j))
      × (get_or pipe0_devport_val j 0 ≡ 4 * j)
pipe0_member_port j h = ground (
  arith,
  every-lt 16 _ j pipe0_table h,
  holds→≡ (port_of_member (get_or pipe0_memberid_val j 0) ecmp_group02_init_4p) (4 * j),
)

-- On the four-pipe model, the member at index `j` of pipe 2's arrays sends to device port
-- `256 + 4 * j`, which is the port that stands at `j` in `pipe2_devport_val`.
pub pipe2_member_port :
    (j : ℕ)
    → j < 16
    → (port_of_member (get_or pipe2_memberid_val j 0) ecmp_group02_init_4p ≡ some (256 + 4 * j))
      × (get_or pipe2_devport_val j 0 ≡ 256 + 4 * j)
pipe2_member_port j h = ground (
  arith,
  every-lt 16 _ j pipe2_table h,
  holds→≡ (port_of_member (get_or pipe2_memberid_val j 0) ecmp_group02_init_4p) (256 + 4 * j),
)
