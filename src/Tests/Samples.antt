-- ===== src/Tests/Samples.antt =====
-- Sample data: routes, clusters and a snapshot.
use argon.Prelude.{ℕ, true, false, none, some, List, [], ◌∷◌, map, nat_eq, list_eq}
use argon.Text.{Text, codes}
use argon.Prelude.Int.{pos}
use argon.Atomics.{Heap}
use argon.Config.{Endpoint, Cluster, Route, ServerTlsBundle, Snapshot}
use argon.Grpc.Connect.{ClientTls, Connector}
use argon.Certs.{Tls, item, pkcs8_key, x509_certificate, nothing}

abbrev pub web_site : Text
web_site = codes "shop.test"

abbrev pub sample_routes : List Route
sample_routes =
    record {
      host = codes "Shop.test";
      path = codes "/";
      path_type = codes "Prefix";
      cluster = codes "web";
      priority = pos 0;
    }
    ∷ record {
      host = codes "shop.test";
      path = codes "/api";
      path_type = codes "Prefix";
      cluster = codes "api";
      priority = pos 0;
    }
    ∷ record {
      host = codes "shop.test";
      path = codes "/api";
      path_type = codes "Exact";
      cluster = codes "index";
      priority = pos 0;
    }
    ∷ record {
      host = codes "";
      path = codes "/";
      path_type = codes "Prefix";
      cluster = codes "fallback";
      priority = pos 9;
    }
    ∷ []

abbrev pub endpoint_at : ℕ → Endpoint
endpoint_at n = record {
  address = codes "10.0.0.1";
  port = pos n;
  weight = pos 1;
  zone = [];
  region = [];
}

abbrev pub sample_endpoints : List Endpoint
sample_endpoints = endpoint_at 80 ∷ endpoint_at 81 ∷ endpoint_at 82 ∷ []

abbrev pub sample_cluster : Text → Text → Cluster
sample_cluster name policy = record {
  name = name;
  lb_policy = policy;
  endpoints = sample_endpoints;
  timeout_ms = pos 1000;
  retries = pos 3;
  backend_protocol = codes "h1";
  request_headers = [];
  backend_tls_insecure_skip_verify = false;
  auth = none;
}

abbrev pub sample_bundle : ServerTlsBundle
sample_bundle = record {
  name = codes "shop";
  sni = codes "shop.test" ∷ codes "*.shop.test" ∷ [];
  cert_pem = 7 ∷ 8 ∷ [];
  key_pem = 9 ∷ [];
  not_after_unix = pos 0;
  version = codes "1";
}

abbrev pub sample_snapshot : Snapshot
sample_snapshot = record {
  version = codes "1";
  controller_id = [];
  ingress_class_name = codes "argon";
  generated_at_unix_sec = pos 0;
  resource_versions = [];
  routes = sample_routes;
  clusters =
      sample_cluster (codes "Web") (codes "RoundRobin")
      ∷ sample_cluster (codes "api") (codes "LeastConn")
      ∷ sample_cluster (codes "odd") (codes "Random")
      ∷ [];
  server_tls = sample_bundle ∷ [];
}

abbrev pub no_cells : Heap
no_cells = record { next = 0; cell = λ a. 0 }

-- Certificates and keys are numbers, one for each byte of a text.
abbrev pub tls : Tls
tls = record {
  Cert = ℕ;
  KeyDer = ℕ;
  SigningKey = ℕ;
  read_all = map (λ n. some (x509_certificate n));
  read_one = λ s. elim s [ [] ↦ nothing | n ∷ ns ↦ item (pkcs8_key n) ];
  any_supported_type = some;
}

abbrev pub sample_connector : Connector
sample_connector = record {
  controller_addr = codes "https://controller:18000";
  node_id = codes "node";
  transport = record {
    uri_host = λ t. some (some (codes "controller"));
    from_shared = λ t. true;
    tls_config = λ t c. true;
  };
}

-- The files of `1`, `2` and `3` for this connector.
abbrev pub sample_target : ClientTls
sample_target = record {
  ca_certificate = 1 ∷ [];
  identity = (2 ∷ [], 3 ∷ []);
  domain_name = codes "controller";
}
