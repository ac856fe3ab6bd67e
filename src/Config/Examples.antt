-- ===== src/Config/Examples.antt =====
-- A configuration file of sections that are all alike.
use igw_p.Prelude.{
  zero, suc, All, ◌∙◌, ℕ, ◌<◌, ◌≤◌, Bool, true, false, Option, none, some, List, [], ◌∷◌, ◌≡◌, ◌≢◌,
  refl, ap, arith, ◌==◌, if◌then◌else◌, length, replicate, get_elem?,
}
use Prim.Native.String.{String}
use text.Mathlib.Text.{◌==◌ as str_eq}
use igw_p.Ether.Examples.{libc, read_number}
use igw_p.Hostif.{SwitchCfgHostif, Inet, ip_atoi}
use igw_p.Config.Steps.{Outcome, refused, aborted, done}
use igw_p.Config.{
  Jansson, SwitchConfig, zero_config, Field, field, missing, wrong, get_field_of_int,
  switch_config_init,
}
use igw_p.Config.Section.{HoldsSection}
use mathlib.Core.Path.{subst}
use igw_p.Config.Valid.{IsHigw, switch_config_init-IsValid}
use igw_p.Config.Sections.{
  Fits, SectionsFit, switch_config_init-hostif_num, switch_config_init-sections,
}

pub data Node : Type 0 where
  root higw redirect list section : Node
  words : String → Node
  number : ℕ → Node

-- The value of a name in an object, as an association list
abbrev value_at : List (String × Node) → String → Option Node
value_at [] name = none
value_at ((key, node) ∷ rest) name = if str_eq key name then some node else value_at rest name

abbrev fields_of : Node → List (String × Node)
fields_of root = ("hostifs", list) ∷ ("higw", higw) ∷ ("RedirectIP", redirect) ∷ []
fields_of higw =
    ("mgt_ip", words "10.0.9.1")
    ∷ ("vip", words "10.0.0.1")
    ∷ ("shared_bandwith_vip", words "10.0.0.3")
    ∷ ("backup_vip", words "10.0.0.2")
    ∷ ("port_speed", number 100)
    ∷ ("Hardware", number 1)
    ∷ ("FEC", number 2)
    ∷ []
fields_of redirect = ("addr_prefix", words "10.1.0.0") ∷ ("prefix_len", number 31) ∷ []
fields_of list = []
fields_of section =
    ("intf_name", words "eth1")
    ∷ ("ip", words "10.0.1.1")
    ∷ ("net_mask_len", number 31)
    ∷ ("gw_ip", words "10.0.1.0")
    ∷ ("mac", words "02:0c:29:71:17:fe")
    ∷ ("fp_port", number 5)
    ∷ []
fields_of (words s) = []
fields_of (number n) = []

abbrev text_of : Node → Option String
text_of (words s) = some s
text_of root = none
text_of higw = none
text_of redirect = none
text_of list = none
text_of section = none
text_of (number n) = none

abbrev number_of : Node → Option ℕ
number_of (number n) = some n
number_of (words s) = none
number_of root = none
number_of higw = none
number_of redirect = none
number_of list = none
number_of section = none

abbrev items_of : ℕ → Node → Option (List Node)
items_of count list = some (replicate count section)
items_of count root = none
items_of count higw = none
items_of count redirect = none
items_of count section = none
items_of count (words s) = none
items_of count (number n) = none

-- The file with so many sections
abbrev pub file_of : ℕ → Jansson
file_of count = record {
  Json = Node;
  load_file = some root;
  is_object = λ n. true;
  object_get = λ n name. value_at (fields_of n) name;
  string_value = text_of;
  integer_value = number_of;
  array_items = items_of count;
}

abbrev jansson : Jansson
jansson = file_of 128

-- Every text is an address, but not 0.
abbrev pub inet : Inet
inet = record { pton4 = λ s. some 7; pton6 = λ s. none }

-- The backup address is one of its own.
abbrev pub inet_apart : Inet
inet_apart = record {
  pton4 = λ s. if str_eq s "10.0.0.2" then some 8 else some 7;
  pton6 = λ s. none;
}

is_done : Outcome SwitchConfig → Bool
is_done (done cfg) = true
is_done refused = false
is_done aborted = false

pub unwrap : Outcome SwitchConfig → SwitchConfig
unwrap (done cfg) = cfg
unwrap refused = zero_config
unwrap aborted = zero_config

is_done-unwrap : (r : Outcome SwitchConfig) → is_done r ≡ true → r ≡ done (unwrap r)
unfolding is_done unwrap
is_done-unwrap (done cfg) h = refl
is_done-unwrap refused h = absurd (cc h)
is_done-unwrap aborted h = absurd (cc h)

abbrev pub config : SwitchConfig
config = unwrap (switch_config_init jansson libc inet)

pub accepted : switch_config_init jansson libc inet ≡ done config
unfolding switch_config_init is_done ip_atoi read_number
accepted = is_done-unwrap (switch_config_init jansson libc inet) refl

or_zero : Field ℕ → ℕ
or_zero (field n) = n
or_zero missing = 0
or_zero wrong = 0

fit : (i : Inet) (count : ℕ) (x : Node) → Fits (file_of count) libc i x
unfolding get_field_of_int or_zero
fit i count section v h = omega (arith, ap or_zero h)
fit i count root v h = absurd (cc h)
fit i count higw v h = absurd (cc h)
fit i count redirect v h = absurd (cc h)
fit i count list v h = absurd (cc h)
fit i count (words s) v h = absurd (cc h)
fit i count (number n) v h = absurd (cc h)

items-equal : (a b : List Node) → some a ≡ some b → a ≡ b
items-equal a b e = cc e

items-Fits : (i : Inet) (count n : ℕ) → All (Fits (file_of count) libc i) (replicate n section)
items-Fits i count zero = tt
items-Fits i count (suc n) = (fit i count section, items-Fits i count n)

pub fits : (i : Inet) (count : ℕ) → SectionsFit (file_of count) libc i
fits i count root' list' items loaded has listed =
    let at_root : root ≡ root' = cc loaded in
    let at_list : some list ≡ some list' =
      ap (λ r. value_at (fields_of r) "hostifs") at_root ∙ has in
    let same_list : list ≡ list' = cc at_list in
    let all : some (replicate count section) ≡ some items =
      ap (items_of count) same_list ∙ listed in
    subst (All (Fits (file_of count) libc i)) (items-equal _ items all) (items-Fits i count count)

-- Every address is the same.
pub same_vips : config.backup_vip ≡ config.vip
unfolding switch_config_init unwrap ip_atoi read_number
same_vips = refl

switch_config_init-IsValid_example :
    IsHigw config
    × (config.dl_ip ≢ 0)
    × (24 ≤ config.dl_ip_prefix_len)
    × (config.dl_ip_prefix_len ≤ 32)
    × (0 < length config.hostifs)
    × (length config.hostifs ≤ 128)
switch_config_init-IsValid_example = switch_config_init-IsValid jansson libc inet config accepted

switch_config_init-hostif_num_example :
    config.hostif_num ≡ (if length config.hostifs == 128 then 0 else length config.hostifs)
switch_config_init-hostif_num_example =
    switch_config_init-hostif_num jansson libc inet config (fits inet 128) accepted

switch_config_init-sections_example :
    (length config.hostifs ≡ 128)
    × ((h : SwitchCfgHostif) × (get_elem? config.hostifs 3 ≡ some h)
        × HoldsSection jansson libc inet section h)
switch_config_init-sections_example =
    switch_config_init-sections jansson libc inet config root list (replicate 128 section) 3 section
      accepted refl refl refl refl
