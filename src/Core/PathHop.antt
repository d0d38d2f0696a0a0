-- ===== src/Core/PathHop.antt =====
-- cjdns-core/src/pathhop.rs: one node of a path, with the labels of its previous and next hop.
use cjdns_route_server.Base.{Option}
use cjdns_route_server.Core.Label.{LabelBits, RoutingLabel}
use cjdns_route_server.Core.Scheme.{EncodingScheme}

pub record PathHop (L : LabelBits) : Type 0 where
  pub label_p : Option (RoutingLabel L)
  pub label_n : Option (RoutingLabel L)
  pub encoding_scheme : EncodingScheme

module _ (L : LabelBits) where
  unfoldable pub new :
      Option (RoutingLabel L) → Option (RoutingLabel L) → EncodingScheme → PathHop L
  new label_p label_n encoding_scheme = record {
    label_p = label_p;
    label_n = label_n;
    encoding_scheme = encoding_scheme;
  }
