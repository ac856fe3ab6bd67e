-- ===== src/Monitor/Ports.antt =====
-- The per-port counters of port_syncd_monitor and tm_port_drop_monitor (switch_monitor.c).
use igw_p.Prelude.{List, [], ◌∷◌, ◌≡◌, refl, arith}
use igw_p.Monitor.{
  MonitorDevport, Event, Readings, Monitor, for_ports, syncd_port, drop_port, port_syncd_monitor,
  tm_port_drop_monitor,
}

-- A turn that keeps which port an entry is about.
abbrev pub KeepsPort : (MonitorDevport → List Event → MonitorDevport × List Event) → Type 0
KeepsPort turn =
    (p : MonitorDevport) (log : List Event)
    → ((turn p log).0.pipe ≡ p.pipe)
      × ((turn p log).0.dev_port ≡ p.dev_port)
      × ((turn p log).0.fp_port ≡ p.fp_port)

pub syncd_port-KeepsPort : (r : Readings) → KeepsPort (syncd_port r)
unfolding syncd_port
syncd_port-KeepsPort r p log = ground arith

pub drop_port-KeepsPort : (r : Readings) → KeepsPort (drop_port r)
unfolding drop_port
drop_port-KeepsPort r p log = ground arith

-- A turn that, taken again on what it left, changes and reports nothing.
abbrev Settles : (MonitorDevport → List Event → MonitorDevport × List Event) → Type 0
Settles turn =
    (p : MonitorDevport) (log log' : List Event) → turn (turn p log).0 log' ≡ ((turn p log).0, log')

syncd_port-Settles : (r : Readings) → Settles (syncd_port r)
unfolding syncd_port
syncd_port-Settles r p log log' = ground arith

drop_port-Settles : (r : Readings) → Settles (drop_port r)
unfolding drop_port
drop_port-Settles r p log log' = ground arith

for_ports-Settles :
    (turn : MonitorDevport → List Event → MonitorDevport × List Event)
    → Settles turn
    → (ps : List MonitorDevport) (log log' : List Event)
    → for_ports turn (for_ports turn ps log).0 log' ≡ ((for_ports turn ps log).0, log')
unfolding for_ports
for_ports-Settles turn h [] log log' = refl
for_ports-Settles turn h (p ∷ ps) log log' =
    cc (h p log log', for_ports-Settles turn h ps (turn p log).1 log')

-- Two rounds of the MAC error monitor on the same readings are one: the counters and the log after
-- the second are those after the first, whichever reads failed.
port_syncd_monitor_idem :
    (r : Readings) (s : Monitor)
    → port_syncd_monitor r (port_syncd_monitor r s) ≡ port_syncd_monitor r s
unfolding port_syncd_monitor
port_syncd_monitor_idem r s =
    rw (for_ports-Settles (syncd_port r) (syncd_port-Settles r) s.devports s.log _)

-- Two rounds of the traffic manager drop monitor on the same readings are one: the counters and
-- the log after the second are those after the first, whichever reads failed.
pub tm_port_drop_monitor_idem :
    (r : Readings) (s : Monitor)
    → tm_port_drop_monitor r (tm_port_drop_monitor r s) ≡ tm_port_drop_monitor r s
unfolding tm_port_drop_monitor
tm_port_drop_monitor_idem r s =
    rw (for_ports-Settles (drop_port r) (drop_port-Settles r) s.devports s.log _)
