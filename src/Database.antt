-- ===== src/Database.antt =====
-- migrations/00001_init.sql and the types that internal/core reads rows into: the tables of the
-- database, their constraints, and the outcome of a statement. A uuid is its bytes, an instant a
-- number. A statement takes the values that the database makes, a fresh uuid and the time, as arguments.
mod Rows
pub mod Apart
pub mod Narrow
unfoldable pub use Rows.*
use restest.Base.{
  ℕ, Bool, true, false, ◌&&◌, ◌||◌, List, [], ◌∷◌, Option, none, some, if◌then◌else◌, Bytes, same,
  not, has_byte, is_utf8,
}
use restest.Fields.{FieldErrors}
use restest.Forms.Headers.{Headers}
use restest.Collections.{Element}
use restest.Documents.{Collection}
use restest.Base.{Int64}

pub record User : Type 0 where
  pub id : Bytes
  pub email : Bytes
  pub password_hash : Bytes
  pub created_at : ℕ
  pub updated_at : ℕ

pub record ApiToken : Type 0 where
  pub id : Bytes
  pub user_id : Bytes
  pub name : Bytes
  pub prefix : Bytes
  pub token_hash : Bytes
  pub last_used_at : Option ℕ
  pub expires_at : Option ℕ
  pub created_at : ℕ

pub record Project : Type 0 where
  pub id : Bytes
  pub owner_id : Bytes
  pub slug : Bytes
  pub name : Bytes
  pub is_demo : Bool
  pub created_at : ℕ
  pub updated_at : ℕ

-- A row of `collections` with its rows of `documents`; the seed as it is decoded.
pub record CollectionRow : Type 0 where
  pub id : Bytes
  pub project_id : Bytes
  pub name : Bytes
  pub seed : List Element
  pub contents : Collection

-- A row of `endpoints`; `none` is null.
pub record EndpointRow : Type 0 where
  pub id : Bytes
  pub project_id : Bytes
  pub method : Bytes
  pub path_pattern : Bytes
  pub kind : Bytes
  pub is_enabled : Bool
  pub delay_ms : Int64
  pub status_code : Option Int64
  pub response_body : Option Bytes
  pub collection_id : Option Bytes
  pub response_headers : Headers
  pub created_at : ℕ
  pub updated_at : ℕ

-- A text of PostgreSQL is UTF-8 without a zero byte.
unfoldable pub takes_text : Bytes → Bool
unfolding has_byte is_utf8
takes_text s = not (has_byte 0 s) && is_utf8 s

pub record Database : Type 0 where
  pub users : List User
  pub tokens : List ApiToken
  pub projects : List Project
  pub collections : List CollectionRow
  pub endpoints : List EndpointRow

-- What a caller of internal/core tells apart; `internal` is every other error, `crashed` a panic.
pub data StoreError : Type 0 where
  invalid : FieldErrors → StoreError
  not_found endpoint_exists collection_exists slug_taken email_taken : StoreError
  invalid_credentials invalid_token internal crashed : StoreError

pub data Outcome (A : Type 0) : Type 0 where
  ok : A → Outcome A
  failed : StoreError → Outcome A

-- What a statement that returns a row answers.
pub data Sql (A : Type 0) : Type 0 where
  row : A → Sql A
  -- `text_refused` is of a parameter that is no text, or no JSON, for PostgreSQL.
  no_rows unique_violation check_violation text_refused : Sql A

-- `join projects p on p.id = ... where p.owner_id = @owner_id`
unfoldable pub owns : Bytes → Bytes → Database → Bool
unfolding exists_by same
owns owner project db = exists_by (λ p. same p.id project && same p.owner_id owner) db.projects
