-- ===== src/Netlink.antt =====
-- The messages in which the module's answer travels to the controller: a payload of entries under a
-- header. Their layout in the socket buffer (`nlmsg_put`, `NLMSG_OK`, `NLMSG_NEXT`) is the kernel's.
use ambix.Base.{List}
use ambix.Config.{AddrInfo}

-- A part of a longer answer (`nlmsg_type` 0), its last part (`NLMSG_DONE`), and `NLMSG_ERROR`.
pub data Message : Type 0 where
  part : List AddrInfo → Message
  done : List AddrInfo → Message
  error : Message
