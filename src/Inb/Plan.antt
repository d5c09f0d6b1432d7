-- ===== src/Inb/Plan.antt =====
-- The messages of a whole target, and what they share with `config_target_inb` of src/dem/config.c: a
-- relation that holds of each sender, of nothing and of two steps in turn holds of the whole.
use nvme_dem.Prelude.{Bool, true, false, ◌&&◌, List, [], ◌∷◌, ◌++◌, map, All, if◌then◌else◌}
use nvme_dem.Memory.{Mem}
use nvme_dem.Dem.State.{Host, Subsystem, PortId, Target}
use nvme_dem.Dem.LogPages.Refresh.{is_restricted, is_empty}
use nvme_dem.Endpoint.Ops.{Ops}
use nvme_dem.Inb.Message.{Message, set_port, link_port, set_subsys, set_ns, set_host, link_host}
use nvme_dem.Inb.Delivery.{IsSendable}
use nvme_dem.Inb.Senders.{
  Link, Result, send, config_portid_inb, config_subsys_inb, send_host_config_inb,
  send_link_host_inb, send_set_ns_inb, send_link_portid_inb,
}
use nvme_dem.Inb.Config.{
  and_then, each, config_host, config_hosts, config_links, config_spaces, config_access,
  config_subsystem,
}

-- The messages for the hosts of a subsystem: each host is made known, then linked.
abbrev pub host_messages : Subsystem → List Host → List Message
host_messages s [] = []
host_messages s (h ∷ hs) = set_host h.nqn ∷ link_host s h ∷ host_messages s hs

abbrev pub access_messages : Subsystem → List Message
access_messages s = if is_restricted s then host_messages s s.host_list else []

-- A restricted subsystem without hosts is linked to no port.
abbrev pub link_messages : List PortId → Subsystem → List Message
link_messages ports s =
    if is_restricted s && is_empty s.host_list then [] else map (λ p. link_port s p) ports

abbrev pub subsystem_messages : List PortId → Subsystem → List Message
subsystem_messages ports s =
    set_subsys s ∷ (access_messages s ++ (map (λ n. set_ns s n) s.ns_list ++ link_messages ports s))

abbrev pub all_subsystems : List PortId → List Subsystem → List Message
all_subsystems ports [] = []
all_subsystems ports (s ∷ ss) = subsystem_messages ports s ++ all_subsystems ports ss

-- What a target is to its endpoint: the ports, then the subsystems, each with what belongs to it.
abbrev pub config_messages : Target → List Message
config_messages t = map set_port t.portid_list ++ all_subsystems t.portid_list t.subsys_list

split_All :
    (ms ns : List Message) → All IsSendable (ms ++ ns) → All IsSendable ms × All IsSendable ns
split_All [] ns h = (tt, h)
split_All (m ∷ ms) ns h = let r = split_All ms ns h.1 in ((h.0, r.0), r.1)

-- All ports, then all subsystems: `config_target_inb` behind its first connection.
abbrev pub config_all : {S : Type 0} → Ops S → Mem → Target → Link S → Result S
config_all ops heap t l =
    and_then (each (config_portid_inb ops heap) t.portid_list l)
      (λ k. each (config_subsystem ops heap t.portid_list) t.subsys_list k)

abbrev pub keep : {S : Type 0} → Link S → Result S
keep l = record { ok = true; link = l }

module _ {S : Type 0} (ops : Ops S) (heap : Mem)
    (Related : List Message → Link S → Result S → Type 0)
    (nothing : (l : Link S) → Related [] l (keep l))
    (one : (m : Message) (l : Link S) → IsSendable m → Related (m ∷ []) l (send ops heap m l))
    (join : (ms ns : List Message) (l : Link S) (r : Result S) (g : Link S → Result S)
      → Related ms l r
      → ((k : Link S) → Related ns k (g k))
      → Related (ms ++ ns) l (and_then r g)) where
  each-Related :
      {A : Type 0} (f : A → Link S → Result S) (msg : A → Message)
      → ((x : A) (l : Link S) → IsSendable (msg x) → Related (msg x ∷ []) l (f x l))
      → (xs : List A) (l : Link S) → All IsSendable (map msg xs)
      → Related (map msg xs) l (each f xs l)
  unfolding each
  each-Related f msg d [] l h = nothing l
  each-Related f msg d (x ∷ xs) l h =
      join (msg x ∷ []) (map msg xs) l (f x l) (each f xs) (d x l h.0)
        (λ k. each-Related f msg d xs k h.1)

  hosts-Related :
      (s : Subsystem) (hs : List Host) (l : Link S)
      → All IsSendable (host_messages s hs)
      → Related (host_messages s hs) l (each (config_host ops heap s) hs l)
  unfolding each
  hosts-Related s [] l h = nothing l
  hosts-Related s (x ∷ hs) l h =
      join (set_host x.nqn ∷ link_host s x ∷ []) (host_messages s hs) l (config_host ops heap s x l)
        (each (config_host ops heap s) hs)
        (join (set_host x.nqn ∷ []) (link_host s x ∷ []) l (send_host_config_inb ops heap x l)
          (send_link_host_inb ops heap s x) (one (set_host x.nqn) l h.0)
          (λ k. one (link_host s x) k h.1.0))
        (λ k. hosts-Related s hs k h.1.1)

  Related-if :
      (b : Bool) (ms ns : List Message) (f g : Link S → Result S) (l : Link S)
      → (All IsSendable ms → Related ms l (f l))
      → (All IsSendable ns → Related ns l (g l))
      → All IsSendable (if b then ms else ns)
      → Related (if b then ms else ns) l (if b then f l else g l)
  Related-if true ms ns f g l p q h = p h
  Related-if false ms ns f g l p q h = q h

  links-Related :
      (ports : List PortId) (s : Subsystem) (l : Link S)
      → All IsSendable (link_messages ports s)
      → Related (link_messages ports s) l (config_links ops heap ports s l)
  links-Related ports s l h =
      Related-if (is_restricted s && is_empty s.host_list) [] (map (λ p. link_port s p) ports) keep
        (each (send_link_portid_inb ops heap s) ports) l (λ e. nothing l)
        (each-Related (send_link_portid_inb ops heap s) (λ p. link_port s p)
          (λ p. one (link_port s p)) ports l)
        h

  access-Related :
      (s : Subsystem) (l : Link S)
      → All IsSendable (access_messages s)
      → Related (access_messages s) l (config_hosts ops heap s l)
  access-Related s l h =
      Related-if (is_restricted s) (host_messages s s.host_list) []
        (each (config_host ops heap s) s.host_list) keep l (hosts-Related s s.host_list l)
        (λ e. nothing l) h

  subsystem-Related :
      (ports : List PortId) (s : Subsystem) (l : Link S)
      → All IsSendable (subsystem_messages ports s)
      → Related (subsystem_messages ports s) l (config_subsystem ops heap ports s l)
  unfolding config_subsystem
  subsystem-Related ports s l h =
      let spaces = map (λ n. set_ns s n) s.ns_list in
      let links = link_messages ports s in
      let k1 = split_All (access_messages s) (spaces ++ links) h.1 in
      let k2 = split_All spaces links k1.1 in
      join (set_subsys s ∷ []) (access_messages s ++ (spaces ++ links)) l
        (config_subsys_inb ops heap s l) (config_access ops heap ports s) (one (set_subsys s) l h.0)
        (λ l.
          join (access_messages s) (spaces ++ links) l (config_hosts ops heap s l)
            (config_spaces ops heap ports s) (access-Related s l k1.0)
            (λ l.
              join spaces links l (each (send_set_ns_inb ops heap s) s.ns_list l)
                (config_links ops heap ports s)
                (each-Related (send_set_ns_inb ops heap s) (λ n. set_ns s n) (λ n. one (set_ns s n))
                  s.ns_list l k2.0)
                (λ l. links-Related ports s l k2.1)))

  subsystems-Related :
      (ports : List PortId) (ss : List Subsystem) (l : Link S)
      → All IsSendable (all_subsystems ports ss)
      → Related (all_subsystems ports ss) l (each (config_subsystem ops heap ports) ss l)
  unfolding each
  subsystems-Related ports [] l h = nothing l
  subsystems-Related ports (s ∷ ss) l h =
      let k = split_All (subsystem_messages ports s) (all_subsystems ports ss) h in
      join (subsystem_messages ports s) (all_subsystems ports ss) l
        (config_subsystem ops heap ports s l) (each (config_subsystem ops heap ports) ss)
        (subsystem-Related ports s l k.0) (λ l. subsystems-Related ports ss l k.1)

  pub config_all-Related :
      (t : Target) (l : Link S)
      → All IsSendable (config_messages t)
      → Related (config_messages t) l (config_all ops heap t l)
  config_all-Related t l h =
      let k =
        split_All (map set_port t.portid_list) (all_subsystems t.portid_list t.subsys_list) h in
      join (map set_port t.portid_list) (all_subsystems t.portid_list t.subsys_list) l
        (each (config_portid_inb ops heap) t.portid_list l)
        (each (config_subsystem ops heap t.portid_list) t.subsys_list)
        (each-Related (config_portid_inb ops heap) set_port (λ p. one (set_port p)) t.portid_list l
          k.0)
        (λ l. subsystems-Related t.portid_list t.subsys_list l k.1)
