-- ===== src/Core/Documents/Enums.antt =====
-- crates/odp-core/src/models.rs: the enumerations of the documents.
use odp_rust.Prelude.Text.{Text}

pub data PriceType : Type 0 where
  fixed free metered quote range starting_at : PriceType

pub data AuthenticationRequirement : Type 0 where
  not_required optional required : AuthenticationRequirement

pub data Protocol : Type 0 where
  aep mpp tap x402 : Protocol

pub data PaymentOption : Type 0 where
  algorand aptos arbitrum arc avalanche base card ethereum hedera inflow : PaymentOption
  lightning monad polygon solana stellar stripe tempo ton : PaymentOption

pub data FilterType : Type 0 where
  boolean_filter date_filter date_time_filter decimal_filter integer_filter : FilterType
  number_filter string_filter : FilterType

pub data FilterOperator : Type 0 where
  equal exists greater_than greater_than_or_equal among less_than : FilterOperator
  less_than_or_equal : FilterOperator

pub data SortDirection : Type 0 where
  ascending descending : SortDirection

pub data MissingPlacement : Type 0 where
  first last : MissingPlacement

pub data ServiceBrandingImageType : Type 0 where
  brand_png brand_svg brand_webp : ServiceBrandingImageType

pub data ResourceImageType : Type 0 where
  avif jpeg png svg webp : ResourceImageType

pub data McpEndpointType : Type 0 where
  streamable_http : McpEndpointType

-- A relation that the protocol does not name is kept by its spelling.
pub data ActionRelation : Type 0 where
  download invoke purchase quote_action reserve : ActionRelation
  other : Text → ActionRelation
