-- ===== src/Ksyun/Shapes.antt =====
-- The shapes of answers in pkg/ksyun/openstack_client/types, and the conversions of the older ones.
use vpc_route_controller.Common.{ℕ, String, Bool, List, [], ◌∷◌, ◌++◌, concat, decimal}
use vpc_route_controller.Ksyun.Types.{Vpc, RouteSetType}

-- `RouteBase`
pub record RouteBase : Type 0 where
  pub domain_id : String
  pub instance_id : String
  pub instance_type : String
  pub ip : String
  pub mask : ℕ

-- `Route`, which embeds `RouteId` and `RouteBase`.
pub record OldRoute : Type 0 where
  pub id : String
  pub base : RouteBase

-- `CreateRouteResponse`, `DelRouteResponse`, `GetRoutesResponse` and `DescribeRouteResponse`, which embed
-- `Response`.
pub record CreateRouteResponse : Type 0 where
  pub request_id : String
  pub route_id : String

pub record DelRouteResponse : Type 0 where
  pub request_id : String
  pub return : Bool

pub record RouteSetResponse : Type 0 where
  pub request_id : String
  pub route_set : List RouteSetType

-- `VpcResp`
pub record VpcResp : Type 0 where
  pub request_id : String
  pub vpcs : List Vpc

-- `Domain`, and `DomainType` around it.
pub record Domain : Type 0 where
  pub name : String
  pub id : String
  pub ip : String
  pub mask : ℕ

-- `RouteResp.ConRoute`
unfoldable con_route : OldRoute → RouteSetType
con_route r = record {
  route_id = r.id;
  vpc_id = r.base.domain_id;
  route_type = r.base.instance_type;
  destination_cidr = concat (r.base.ip ∷ "/" ∷ decimal r.base.mask ∷ []);
  next_hopset = [];
}

-- The loop of `RoutesResp.ConRoutes`, which appends to what it has.
unfoldable con_routes_from : List RouteSetType → List OldRoute → List RouteSetType
unfolding con_route
con_routes_from rss [] = rss
con_routes_from rss (route ∷ routes) = con_routes_from (rss ++ con_route route ∷ []) routes

-- `RoutesResp.ConRoutes`
unfoldable con_routes : List OldRoute → List RouteSetType
unfolding con_routes_from
con_routes routes = con_routes_from [] routes

-- `DomainType.ConVpc`, which sets no tag.
unfoldable con_vpc : Domain → Vpc
con_vpc d = record {
  vpc_id = d.id;
  vpc_name = d.name;
  cidr_block = concat (d.ip ∷ "/" ∷ decimal d.mask ∷ []);
  product_tag = "";
}
