-- ===== src/Kube/Network.antt =====
-- Services, EndpointSlices, Ingresses and IngressClasses.
use scam.Base.{ℕ, Bool, Option, List, Text}
use scam.Kube.Values.{Value, Labels, Meta}

-- `target_port` is what the String method of the field returns.
pub record ServicePort : Type 0 where
  pub name : Text
  pub port : ℕ
  pub target_port : Text
  pub protocol : Text
  pub node_port : ℕ
  pub app_protocol : Option Text

-- An entry of a load balancer's status, of a Service or of an Ingress.
pub record LoadBalancer : Type 0 where
  pub ip : Text
  pub hostname : Text

pub record Service : Type 0 where
  pub meta : Meta
  pub service_type : Text
  pub cluster_ips : List Text
  pub external_ips : List Text
  pub external_name : Text
  pub selector : Labels
  pub ports : List ServicePort
  pub load_balancer : List LoadBalancer
  pub conditions : List Value

pub record Endpoint : Type 0 where
  pub addresses : List Text
  pub ready : Option Bool
  pub hostname : Option Text
  pub node_name : Option Text
  pub zone : Option Text

pub record EndpointPort : Type 0 where
  pub name : Option Text
  pub port : Option ℕ
  pub protocol : Option Text

pub record EndpointSlice : Type 0 where
  pub meta : Meta
  pub address_type : Text
  pub endpoints : List Endpoint
  pub ports : List EndpointPort

pub record ServiceBackend : Type 0 where
  pub name : Text
  pub port_name : Text
  pub port_number : ℕ

pub record ResourceBackend : Type 0 where
  pub kind : Text
  pub name : Text

pub record IngressBackend : Type 0 where
  pub service : Option ServiceBackend
  pub resource : Option ResourceBackend

pub record HttpPath : Type 0 where
  pub path : Text
  pub path_type : Option Text
  pub backend : IngressBackend

pub record IngressRule : Type 0 where
  pub host : Text
  pub http : Option (List HttpPath)

pub record IngressTls : Type 0 where
  pub hosts : List Text
  pub secret_name : Text

pub record Ingress : Type 0 where
  pub meta : Meta
  pub ingress_class_name : Option Text
  pub default_backend : Option IngressBackend
  pub rules : List IngressRule
  pub tls : List IngressTls
  pub load_balancer : List LoadBalancer

pub record IngressClass : Type 0 where
  pub meta : Meta
  pub controller : Text
