-- ===== src/Device/Serves.antt =====
-- What the creation of the device makes of the configuration's host interfaces (switch_device.c).
use igw_p.Prelude.{
  ℕ, ◌<◌, Option, none, some, List, [], ◌≡◌, ◌≢◌, sym, ◌∙◌, ap, arith, leb, length, get_elem?, take,
  if◌then◌else◌, map,
}
use mathlib.Core.Path.{subst}
use igw_p.Ether.Aton.{Libc}
use igw_p.Config.{Jansson, SwitchConfig, switch_config_init}
use igw_p.Config.Steps.{done}
use igw_p.Config.Sections.{SectionsFit, switch_config_init-hostif_num}
use igw_p.Port.{Stray}
use igw_p.Hashed.Lookup.{find_last, find_last-get_elem?, entry_get-key}
use igw_p.Hostif.{
  SwitchCfgHostif, Hostif, Inet, front_panel_index, hostif_array_size, parse_hostifs,
  parser_switch_config_to_hostif,
}
use igw_p.Hostif.Filters.{Knet, Answers}
use igw_p.Hostif.Create.{HostifInfo, create_hostif}
use igw_p.Hostif.Wiring.{IsWired, joined-keeps}
use igw_p.Hostif.Array.{create_hostif-IsWired}
use igw_p.Hostif.Names.{create_hostif-info, mirror_hostif_create-done}
use igw_p.Hostif.Sources.{parser_switch_config_to_hostif-source, guarded-some}
use igw_p.Hostif.Events.{
  HostifEntry, key_dev_port, hostif_entry, hostif_hash_table_init, hostif_entry_get,
}
use igw_p.Hostif.Follows.{hostif_entry_get_lem}
use igw_p.Device.{
  Queries, CpuifAnswers, Device, hostif_array, job, jobs, mirror_hostif, switch_device_create,
}
use igw_p.Device.Chain.{
  All-get_elem?, get_elem?-map, take-all, jobs-get_elem?, jobs-IsNumbered,
  switch_device_create-chain,
}

module _ (j : Jansson) (c : Libc) (inet : Inet) (q : Queries) (stray : Stray) (cpuif : CpuifAnswers)
    (answers : ℕ → Answers) (mirror : Answers) where
  -- What a created device has for one section of the configuration
  abbrev pub Serves : Device → SwitchCfgHostif → ℕ → Type 0
  Serves d c n =
      (i : HostifInfo) × (get_elem? d.hostif_infos n ≡ some i)
      × (i.info_hostif.intf_name ≡ c.cfg_intf_name)
      × (q.fp_to_dev (front_panel_index c.cfg_fp_port) ≡ some i.info_hostif.dev_port)
      × IsWired d.knet i
      × ((e : HostifEntry) × (hostif_entry_get d.hostif_hash_table i.info_hostif.dev_port ≡ some e)
          × (e.entry_dev_port ≡ i.info_hostif.dev_port))

  hostif_array-all :
      (cfg : SwitchConfig) (hs : List Hostif)
      → SectionsFit j c inet
      → switch_config_init j c inet ≡ done cfg
      → length cfg.hostifs < 128
      → hostif_array inet cfg ≡ some hs
      → parser_switch_config_to_hostif inet cfg.hostifs ≡ some hs
  unfolding hostif_array
  hostif_array-all cfg hs fits read few parsed =
      let number = switch_config_init-hostif_num j c inet cfg fits read in
      let all : cfg.hostif_num ≡ length cfg.hostifs = ground (arith, number, few) in
      ap (parser_switch_config_to_hostif inet)
        (sym (ap (λ n. take n cfg.hostifs) all ∙ take-all cfg.hostifs))
      ∙ guarded-some _ (parser_switch_config_to_hostif inet (take cfg.hostif_num cfg.hostifs)) hs
          parsed

  entry-found :
      (infos : List HostifInfo) (n : ℕ) (i : HostifInfo)
      → get_elem? infos n ≡ some i
      → (e : HostifEntry) × (hostif_entry_get (hostif_hash_table_init infos) i.info_hostif.dev_port
          ≡ some e)
        × (e.entry_dev_port ≡ i.info_hostif.dev_port)
  unfolding hostif_entry_get
  entry-found infos n i at =
      let (e, found) =
        find_last-get_elem? key_dev_port (map hostif_entry infos) n (hostif_entry i)
          (get_elem?-map hostif_entry infos n i at) in
      let looked : hostif_entry_get (hostif_hash_table_init infos) i.info_hostif.dev_port ≡ some e =
        hostif_entry_get_lem infos i.info_hostif.dev_port ∙ found in
      (
        e,
        looked,
        entry_get-key key_dev_port i.info_hostif.dev_port (hostif_hash_table_init infos) e looked,
      )

  -- Where the ports of the sections fit in 16 bits and the driver numbers its devices from 1 on: if the
  -- device is created, each section of a configuration with fewer than 128 sections has a host
  -- interface at its place, with the section's name and the device port of its front-panel port, which
  -- is joined in both directions to its device; and a lookup by that port finds an entry of that port.
  pub switch_device_create-Serves :
      (d : Device) (s : SwitchCfgHostif) (n : ℕ)
      → SectionsFit j c inet
      → ((m : ℕ) → (answers m).kndev_add ≢ some 0)
      → mirror.kndev_add ≢ some 0
      → switch_device_create j c inet q stray cpuif answers mirror ≡ some d
      → length d.device_cfg.hostifs < 128
      → get_elem? d.device_cfg.hostifs n ≡ some s
      → Serves d s n
  switch_device_create-Serves d s n fits numbered mirror_numbered e few at =
      let (hs, k1, k2, read, parsed, made, mirrored, table) =
        switch_device_create-chain j c inet q stray cpuif answers mirror d e in
      let (h, listed, named, front) =
        parser_switch_config_to_hostif-source inet d.device_cfg.hostifs hs n s
          (hostif_array-all d.device_cfg hs fits read few parsed) at in
      let (a, job_at) = jobs-get_elem? q answers 0 hs n h listed in
      let (i, found, name, port) =
        create_hostif-info (jobs q answers 0 hs) k1 k2 d.hostif_infos n (job q a h) made job_at in
      let wired =
        All-get_elem? (IsWired k2) d.hostif_infos n i
          (create_hostif-IsWired (jobs q answers 0 hs) k1 k2 d.hostif_infos
            (jobs-IsNumbered q answers 0 hs numbered) made)
          found in
      let last =
        mirror_hostif_create-done mirror mirror_hostif 1 k2 d.knet d.mirror_info mirror_numbered
          mirrored in
      let (entry, looked, key) = entry-found d.hostif_infos n i found in
      (
        i,
        found,
        name ∙ named,
        ap q.fp_to_dev (sym front) ∙ port,
        subst (λ k. IsWired k i) (sym last)
            (joined-keeps k2 i d.mirror_info.knet_hostif_handle 0x1FF wired),
        (entry, ap (λ t. hostif_entry_get t i.info_hostif.dev_port) table ∙ looked, key),
      )

  abbrev array_of : List SwitchCfgHostif → ℕ → Option (List Hostif)
  array_of cs num =
      if leb num hostif_array_size then parser_switch_config_to_hostif inet (take num cs) else none

  some-equal : (a b : List Hostif) → Path (Option (List Hostif)) (some a) (some b) → a ≡ b
  some-equal a b e = cc e

  infos-equal :
      (k k' : Knet) (a b : List HostifInfo)
      → Path (Option (Knet × List HostifInfo)) (some (k, a)) (some (k', b))
      → a ≡ b
  infos-equal k k' a b e = cc e

  -- Where the ports of the sections fit in 16 bits: a configuration of 128 sections makes a device with
  -- no host interface at all, and a lookup by a port finds nothing.
  pub switch_device_create_full :
      (d : Device)
      → SectionsFit j c inet
      → switch_device_create j c inet q stray cpuif answers mirror ≡ some d
      → length d.device_cfg.hostifs ≡ 128
      → (d.hostif_infos ≡ []) × ((port : ℕ) → hostif_entry_get d.hostif_hash_table port ≡ none)
  unfolding hostif_array jobs create_hostif parser_switch_config_to_hostif parse_hostifs find_last
  switch_device_create_full d fits e full =
      let (hs, k1, k2, read, parsed, made, mirrored, table) =
        switch_device_create-chain j c inet q stray cpuif answers mirror d e in
      let number = switch_config_init-hostif_num j c inet d.device_cfg fits read in
      let cleared : d.device_cfg.hostif_num ≡ 0 = ground (arith, number, full) in
      let empty : hs ≡ [] =
        some-equal hs [] (sym parsed ∙ ap (array_of d.device_cfg.hostifs) cleared) in
      let no_info : d.hostif_infos ≡ [] = sym (
        infos-equal k1 k2 [] d.hostif_infos
          (ap (λ l. create_hostif (jobs q answers 0 l) k1) (sym empty) ∙ made)) in
      (
        no_info,
        λ port.
            ap (λ t. hostif_entry_get t port) table
            ∙ hostif_entry_get_lem d.hostif_infos port
            ∙ ap (λ l. find_last key_dev_port port (map hostif_entry l)) no_info,
      )
