-- ===== src/Network/Route/Defs.antt =====
-- src/core/network/route/route.h: a static route. A field that may be NULL is an `Option`.
use noc_demo.Common.{Option}
use noc_demo.Common.Texts.{Text}

pub record Route : Type 0 where
  pub id : Option Text
  pub interface : Option Text
  pub ip_mask : Option Text
  pub target_ip : Option Text
  pub name : Option Text
