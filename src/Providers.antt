-- ===== src/Providers.antt =====
-- The adapter interface of src/types.ts and its inspection in src/provider-sdk.ts. An adapter is a
-- record of functions; what a call answers is a function of its input.
pub mod Conformance
pub mod Definition
use x.Prelude.{
  String, Bool, true, false, not, Option, none, some, List, [], ◌∷◌, ◌++◌, Result, ok, err, ◌>>=◌,
  ◌==◌, string_eq, is_empty, ◌<>◌, if◌then◌else◌, map,
}
use x.Types.{
  HumanMethodDescriptor, HumanMethodRequirement, HumanRequirement, HumanProofSubmission,
  ProviderVerifiedHuman, Json,
}
use x.Catalog.{Catalog, is_human_method_identifier, define_method_catalog, method_key}

pub record HumanProviderAdapter : Type 0 where
  pub provider_id : String
  pub methods : Result (List HumanMethodDescriptor)
  pub validate_provider_request :
      HumanRequirement → HumanMethodRequirement → Option Json → Result (Unit {0})
  pub verify :
      HumanRequirement
      → HumanMethodRequirement
      → HumanProofSubmission
      → Result ProviderVerifiedHuman

pub data ProviderAdapterConformanceIssueCode : Type 0 where
  adapter_invalid method_provider_mismatch no_methods provider_id_invalid :
      ProviderAdapterConformanceIssueCode

pub record ProviderAdapterConformanceIssue : Type 0 where
  pub code : ProviderAdapterConformanceIssueCode
  pub detail : String

pub record ProviderAdapterConformanceReport : Type 0 where
  pub conformant : Bool
  pub provider_id : String
  pub methods : List String
  pub issues : List ProviderAdapterConformanceIssue

abbrev issue : ProviderAdapterConformanceIssueCode → String → ProviderAdapterConformanceIssue
issue code detail = record { code = code; detail = detail }

abbrev when : Bool → ProviderAdapterConformanceIssue → List ProviderAdapterConformanceIssue
when true found = found ∷ []
when false found = []

-- The loop that compares each descriptor's provider with the adapter's.
unfoldable pub foreign_methods :
    String → List HumanMethodDescriptor → List ProviderAdapterConformanceIssue
foreign_methods provider_id [] = []
foreign_methods provider_id (descriptor ∷ descriptors) =
    when (not (descriptor.provider_id == provider_id)) (
      issue method_provider_mismatch (
        "Method "
        <> method_key descriptor.provider_id descriptor.method_id
        <> " does not belong to adapter "
        <> provider_id))
    ++ foreign_methods provider_id descriptors

-- The `catch` around the construction of the catalog.
catalog_issues : Result Catalog → List ProviderAdapterConformanceIssue
catalog_issues (ok catalog) = []
catalog_issues (err message) = issue adapter_invalid message ∷ []

-- The `try` block, and the methods that are known after it.
unfoldable pub methods_issues :
    String
    → Result (List HumanMethodDescriptor)
    → List ProviderAdapterConformanceIssue × List HumanMethodDescriptor
unfolding catalog_issues
methods_issues provider_id (err message) = (issue adapter_invalid message ∷ [], [])
methods_issues provider_id (ok methods) = (
  when (is_empty methods) (issue no_methods "Adapter must expose at least one method descriptor")
      ++ (foreign_methods provider_id methods ++ catalog_issues (define_method_catalog methods)),
  methods,
)

abbrev method_name : HumanMethodDescriptor → String
method_name descriptor =
    method_key descriptor.provider_id descriptor.method_id <> "@" <> descriptor.version

-- A type rules out an adapter without `validateProviderRequest`.
unfoldable pub inspect_human_provider_adapter :
    HumanProviderAdapter → ProviderAdapterConformanceReport
unfolding methods_issues
inspect_human_provider_adapter adapter =
    let (found, methods) = methods_issues adapter.provider_id adapter.methods in
    let issues =
      when (not (is_human_method_identifier adapter.provider_id)) (
        issue provider_id_invalid
          "Adapter providerId must use lowercase protocol identifier syntax")
      ++ found in
    record {
      conformant = is_empty issues;
      provider_id = adapter.provider_id;
      methods = map method_name methods;
      issues = issues;
    }

abbrev code_name : ProviderAdapterConformanceIssueCode → String
code_name adapter_invalid = "ADAPTER_INVALID"
code_name method_provider_mismatch = "METHOD_PROVIDER_MISMATCH"
code_name no_methods = "NO_METHODS"
code_name provider_id_invalid = "PROVIDER_ID_INVALID"

-- The codes and details of the issues, joined for the message of the error.
describe : List ProviderAdapterConformanceIssue → String
describe [] = ""
describe (found ∷ []) = code_name found.code <> ": " <> found.detail
describe (found ∷ other ∷ rest) =
    code_name found.code <> ": " <> found.detail <> "; " <> describe (other ∷ rest)

unfoldable pub assert_human_provider_adapter_conformance : HumanProviderAdapter → Result (Unit {0})
unfolding describe
assert_human_provider_adapter_conformance adapter =
    let report = inspect_human_provider_adapter adapter in
    if report.conformant
    then ok tt
    else err (
        "Non-conforming provider adapter " <> adapter.provider_id <> ": " <> describe report.issues)
