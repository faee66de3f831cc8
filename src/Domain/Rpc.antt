-- ===== src/Domain/Rpc.antt =====
-- backend/internal/domain/backend_rpc.go: the request and the response of the broker's calls. `D` is
-- the type of a response's `data`, which is `content` here, and the payload is the raw JSON text.
use dsk_agent.Base.{ℕ, Bool, true, false, Option, none, some}
use dsk_agent.Base.Text.{Text}

pub record BackendRpcRequest : Type 0 where
  pub request_id : Text
  pub action : Text
  pub payload : Text

pub record BackendRpcError : Type 0 where
  pub code : Text
  pub message : Text

pub record BackendRpcResponse (D : Type 0) : Type 0 where
  pub request_id : Text
  pub success : Bool
  pub content : Option D
  pub error : Option BackendRpcError

module _ {D : Type 0} where
  -- `BackendRPCSuccess`.
  abbrev pub backend_rpc_success : Text → D → BackendRpcResponse D
  backend_rpc_success request_id value = record {
    request_id = request_id;
    success = true;
    content = some value;
    error = none;
  }

  -- `BackendRPCFailure`.
  abbrev pub backend_rpc_failure : Text → Text → Text → BackendRpcResponse D
  backend_rpc_failure request_id code message = record {
    request_id = request_id;
    success = false;
    content = none;
    error = some (record { code = code; message = message });
  }

pub record Recommendation : Type 0 where
  pub id : ℕ
  pub deal_id : ℕ
  pub kind : Text
  pub recommendation : Text
