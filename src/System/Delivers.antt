-- ===== src/System/Delivers.antt =====
-- From the configuration file to the packets: what holds once `main` has set everything up.
use igw_p.Prelude.{
  ◌%◌, ◌^◌, true, ℕ, Option, none, some, List, ◌≡◌, sym, ◌∙◌, ap, Option-cases, inl, inr,
}
use igw_p.Prelude.Chain.{>>=-eq-some}
use igw_p.Ether.Aton.{Libc}
use igw_p.Config.{Jansson, SwitchConfig, switch_config_init}
use igw_p.Config.Steps.{Outcome, done}
use igw_p.Config.Valid.{switch_config_init-IsValid}
use igw_p.Port.{Stray}
use igw_p.Hostif.{SwitchCfgHostif, Inet, front_panel_index}
use igw_p.Hostif.Filters.{Answers}
use igw_p.Hostif.Create.{HostifInfo}
use igw_p.Hostif.Wiring.{IsWired}
use igw_p.Device.{g_cpu_pcie_port, Queries, CpuifAnswers, switch_device_create}
use igw_p.Device.Chain.{switch_device_create-chain}
use igw_p.Bfrt.{BfRt, BfData, Setting, IsFaithful}
use igw_p.Bfrt.Setup.{run}
use igw_p.Bfrt.Startup.{start_up}
use igw_p.Bfrt.Install.{none-some}
use igw_p.Bfrt.Started.{start_up_same_vip}
use igw_p.Bfrt.PacketTable.{protocol_packet_steps, protocol_packet_key_setup}
use igw_p.Attributes.{AttributeDriver, attribute_steps, run_attribute_steps}
use igw_p.PacketTable.{ProtocolPacket, ProtocolPacketKey, passes_protocol}
use igw_p.PacketTable.Own.{IsFor}
use igw_p.Bfrt.Copies.{protocol_packet_table, copies_to}
use igw_p.System.{SetUp, start_cfg, packet_cfg, packet_hostifs, switchlink_start, main}
use Prim.Native.String.{String}

set_up-same : {d : BfRt} {a : AttributeDriver} (x u : SetUp d a) → some x ≡ some u → x ≡ u
set_up-same x u e = cc e

done-same : (x y : SwitchConfig) → Path (Outcome SwitchConfig) (done x) (done y) → x ≡ y
done-same x y e = cc e

module _ (j : Jansson) (c : Libc) (inet : Inet) (q : Queries) (stray : Stray) (cpuif : CpuifAnswers)
    (answers : ℕ → Answers) (mirror : Answers) (d : BfRt) (a : AttributeDriver)
    (if_nametoindex : String → ℕ) (received : d.State → Option d.State) where
  main-chain :
      (s : d.State) (attrs : a.State) (u : SetUp d a)
      → main j c inet q stray cpuif answers mirror d a if_nametoindex received s attrs ≡ some u
      → (s1 : d.State) × (s3 : d.State) × (switch_device_create j c inet q stray cpuif answers
            mirror
          ≡ some u.device)
        × (run d s (start_up (start_cfg u.device.device_cfg)) ≡ some s1)
        × (run d s3 (protocol_packet_steps (packet_cfg u.device) (packet_hostifs u.device))
            ≡ some u.tables)
  unfolding main
  main-chain s attrs u e =
      let (dev, created, e1) =
        >>=-eq-some (switch_device_create j c inet q stray cpuif answers mirror) _ e in
      let (s1, started, e2) = >>=-eq-some (run d s (start_up (start_cfg dev.device_cfg))) _ e1 in
      let (attrs', _, e3) = >>=-eq-some (run_attribute_steps a attribute_steps attrs) _ e2 in
      let (linked, _, e4) = >>=-eq-some (switchlink_start d if_nametoindex dev s1) _ e3 in
      let (s3, _, e5) = >>=-eq-some (received linked.0) _ e4 in
      let (s4, filled, e6) =
        >>=-eq-some (run d s3 (protocol_packet_steps (packet_cfg dev) (packet_hostifs dev))) _ e5 in
      let same = set_up-same _ u e6 in
      (
        s1,
        s3,
        created ∙ ap (λ x. some x.device) same,
        ap (λ x. run d s (start_up (start_cfg x.device.device_cfg))) (sym same) ∙ started,
        ap (λ x. run d s3 (protocol_packet_steps (packet_cfg x.device) (packet_hostifs x.device)))
              (sym same)
            ∙ filled
            ∙ ap (λ x. some x.tables) same,
      )

  -- What one section of the configuration comes to: an interface with its name, wired to the device
  -- port of its front-panel port; and for a packet to one of the interface's own addresses, on its
  -- port, the driver's table of protocol packets holds an entry that the packet passes, and that
  -- copies it to the CPU's port.
  abbrev pub Delivers :
      (d.State → String → List Setting → Option BfData) → SetUp d a → SwitchCfgHostif → Type 0
  Delivers read u section =
      (i : HostifInfo) × (i.info_hostif.intf_name ≡ section.cfg_intf_name)
      × (q.fp_to_dev (front_panel_index section.cfg_fp_port) ≡ some i.info_hostif.dev_port)
      × IsWired u.device.knet i
      × ((p : ProtocolPacket)
          → IsFor p i.info_hostif
          → (k : ProtocolPacketKey) × (passes_protocol p k ≡ true)
            × (read u.tables protocol_packet_table (protocol_packet_key_setup k)
                ≡ some (copies_to (g_cpu_pcie_port u.device.device_ctx % 2 ^ 16))))

  -- Over a driver that does what it documents: with a configuration that is accepted and names one
  -- address as both vip and backup_vip, `main` never gets as far as the table of protocol packets,
  -- whatever the calls return and whatever the tables hold.
  pub main_same_vip :
      (read : d.State → String → List Setting → Option BfData) (cfg : SwitchConfig) (s : d.State)
      (attrs : a.State)
      → IsFaithful d read
      → switch_config_init j c inet ≡ done cfg
      → cfg.backup_vip ≡ cfg.vip
      → main j c inet q stray cpuif answers mirror d a if_nametoindex received s attrs ≡ none
  unfolding start_cfg
  main_same_vip read cfg s attrs f accepted same =
      elim (Option-cases
        (main j c inet q stray cpuif answers mirror d a if_nametoindex received s attrs)) [
          | inl ended ↦ ended
          | inr (u, e) ↦
              let (s1, s3, created, started, filled) = main-chain s attrs u e in
              let (hs, k1, k2, from_file, parsed, made, mirrored, table) =
                switch_device_create-chain j c inet q stray cpuif answers mirror u.device created in
              let cfgs : cfg ≡ u.device.device_cfg = done-same _ _ (sym accepted ∙ from_file) in
              let refused =
                start_up_same_vip d read f s (start_cfg cfg) same
                  (switch_config_init-IsValid j c inet cfg accepted).0.has_vip in
              absurd (
                none-some s1
                  (sym refused ∙ ap (λ x. run d s (start_up (start_cfg x))) cfgs ∙ started))
        ]
