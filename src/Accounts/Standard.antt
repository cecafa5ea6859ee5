-- ===== src/Accounts/Standard.antt =====
-- `_STANDARD_ACCOUNTS` (backend/src/domains/accounting/services.py).
use text.Mathlib.Text.{◌==◌ as str_eq}
use bookkeeping.Base.{List, Option, String, [], if◌then◌else◌, none, some, ◌∷◌}
use bookkeeping.Ledger.Tables.{AccountType, asset, equity, expense, liability, revenue}

pub record Definition : Type 0 where
  pub key : String
  pub name : String
  pub code : String
  pub account_type : AccountType
  pub account_group : String

abbrev defined : String → String → String → AccountType → String → Definition
defined key name code type group = record {
  key = key;
  name = name;
  code = code;
  account_type = type;
  account_group = group;
}

unfoldable pub standard_accounts : List Definition
standard_accounts =
    defined "assets.cash" "Cash on Hand" "1001" asset "Cash & Bank"
    ∷ defined "assets.bank" "Bank Account" "1002" asset "Cash & Bank"
    ∷ defined "assets.upi" "UPI Collections" "1003" asset "Cash & Bank"
    ∷ defined "assets.pos" "POS Collections" "1004" asset "Cash & Bank"
    ∷ defined "assets.petty_cash" "Petty Cash" "1005" asset "Cash & Bank"
    ∷ defined "assets.inventory" "Inventory" "1300" asset "Inventory"
    ∷ defined "cgst_input" "CGST Input Tax" "1401" asset "Input Tax Credit"
    ∷ defined "sgst_input" "SGST Input Tax" "1402" asset "Input Tax Credit"
    ∷ defined "igst_input" "IGST Input Tax" "1403" asset "Input Tax Credit"
    ∷ defined "utgst_input" "UTGST Input Tax" "1404" asset "Input Tax Credit"
    ∷ defined "cess_input" "Cess Input Tax" "1405" asset "Input Tax Credit"
    ∷ defined "tds_receivable" "TDS Receivable" "1410" asset "Input Tax Credit"
    ∷ defined "assets.prepaid" "Prepaid Expenses" "1500" asset "Other Current Assets"
    ∷ defined "assets.security_deposit" "Security Deposits" "1510" asset "Other Current Assets"
    ∷ defined "assets.advance_vendor" "Advance to Vendors" "1520" asset "Other Current Assets"
    ∷ defined "assets.furniture" "Furniture & Fixtures" "2001" asset "Fixed Assets"
    ∷ defined "assets.computer" "Computer & Equipment" "2002" asset "Fixed Assets"
    ∷ defined "assets.vehicle" "Motor Vehicle" "2003" asset "Fixed Assets"
    ∷ defined "assets.plant" "Plant & Machinery" "2004" asset "Fixed Assets"
    ∷ defined "assets.building" "Building" "2005" asset "Fixed Assets"
    ∷ defined "assets.land" "Land" "2006" asset "Fixed Assets"
    ∷ defined "assets.depr_furniture" "Accum. Depreciation - Furniture" "2101" asset
        "Accumulated Depreciation"
    ∷ defined "assets.depr_computer" "Accum. Depreciation - Computer" "2102" asset
        "Accumulated Depreciation"
    ∷ defined "assets.depr_vehicle" "Accum. Depreciation - Vehicle" "2103" asset
        "Accumulated Depreciation"
    ∷ defined "assets.depr_plant" "Accum. Depreciation - Plant" "2104" asset
        "Accumulated Depreciation"
    ∷ defined "assets.depr_building" "Accum. Depreciation - Building" "2105" asset
        "Accumulated Depreciation"
    ∷ defined "cgst_output" "CGST Output Tax" "3001" liability "GST Output"
    ∷ defined "sgst_output" "SGST Output Tax" "3002" liability "GST Output"
    ∷ defined "igst_output" "IGST Output Tax" "3003" liability "GST Output"
    ∷ defined "utgst_output" "UTGST Output Tax" "3004" liability "GST Output"
    ∷ defined "cess_output" "Cess Output Tax" "3005" liability "GST Output"
    ∷ defined "liability.tds" "TDS Payable" "3101" liability "Statutory Liabilities"
    ∷ defined "liability.tcs" "TCS Payable" "3106" liability "Statutory Liabilities"
    ∷ defined "liability.gst_payable" "GST Payable" "3102" liability "Statutory Liabilities"
    ∷ defined "liability.pf" "PF Payable" "3103" liability "Statutory Liabilities"
    ∷ defined "liability.esi" "ESI Payable" "3104" liability "Statutory Liabilities"
    ∷ defined "liability.professional_tax" "Professional Tax Payable" "3105" liability
        "Statutory Liabilities"
    ∷ defined "liability.advance" "Advance from Customers" "3201" liability
        "Other Current Liabilities"
    ∷ defined "liability.salary_payable" "Salary Payable" "3202" liability
        "Other Current Liabilities"
    ∷ defined "liability.expense_payable" "Expenses Payable" "3203" liability
        "Other Current Liabilities"
    ∷ defined "liability.grir" "Goods Received / Invoice Received" "3204" liability
        "Other Current Liabilities"
    ∷ defined "liability.loan" "Loan Account" "3301" liability "Long-term Liabilities"
    ∷ defined "liability.term_loan" "Term Loan" "3302" liability "Long-term Liabilities"
    ∷ defined "equity.capital" "Owner's Capital" "4001" equity "Capital"
    ∷ defined "equity.drawings" "Drawings" "4002" equity "Capital"
    ∷ defined "equity.retained" "Retained Earnings" "4003" equity "Capital"
    ∷ defined "equity.current_year" "Current Year Earnings" "4004" equity "Capital"
    ∷ defined "sales_revenue" "Sales Revenue" "5001" revenue "Sales"
    ∷ defined "sales_discount" "Sales Discount" "5002" revenue "Sales"
    ∷ defined "service_revenue" "Service Revenue" "5010" revenue "Sales"
    ∷ defined "interest_income" "Interest Income" "5101" revenue "Other Income"
    ∷ defined "rental_income" "Rental Income" "5102" revenue "Other Income"
    ∷ defined "commission_income" "Commission Income" "5103" revenue "Other Income"
    ∷ defined "other_income" "Other Income" "5199" revenue "Other Income"
    ∷ defined "prior_period_adjustment" "Prior Period Adjustments" "5200" revenue "Prior Period"
    ∷ defined "inventory_adjustment" "Inventory Gain / Loss" "4300" expense "Cost of Goods Sold"
    ∷ defined "cogs" "Cost of Goods Sold" "6000" expense "Cost of Goods Sold"
    ∷ defined "purchases" "Purchases" "6001" expense "Cost of Goods Sold"
    ∷ defined "purchase_discount" "Purchase Discount" "6002" expense "Cost of Goods Sold"
    ∷ defined "freight_in" "Freight Inward" "6003" expense "Cost of Goods Sold"
    ∷ defined "expense.salary" "Salary & Wages" "6101" expense "Direct Expenses"
    ∷ defined "expense.freight_out" "Freight Outward" "6102" expense "Direct Expenses"
    ∷ defined "expense.job_work" "Job Work Charges" "6103" expense "Direct Expenses"
    ∷ defined "expense.rent" "Rent" "6201" expense "Admin Expenses"
    ∷ defined "expense.office" "Office Supplies & Stationery" "6202" expense "Admin Expenses"
    ∷ defined "expense.telephone" "Telephone & Internet" "6203" expense "Admin Expenses"
    ∷ defined "expense.electricity" "Electricity & Utilities" "6204" expense "Admin Expenses"
    ∷ defined "expense.tea" "Tea & Refreshments" "6205" expense "Admin Expenses"
    ∷ defined "expense.cleaning" "Cleaning & Housekeeping" "6206" expense "Admin Expenses"
    ∷ defined "expense.security" "Security Charges" "6207" expense "Admin Expenses"
    ∷ defined "expense.advertising" "Advertising & Marketing" "6301" expense "Selling Expenses"
    ∷ defined "expense.commission_paid" "Commission Paid" "6302" expense "Selling Expenses"
    ∷ defined "expense.transport" "Transport & Travel" "6303" expense "Selling Expenses"
    ∷ defined "expense.packing" "Packing & Forwarding" "6304" expense "Selling Expenses"
    ∷ defined "expense.interest_paid" "Interest Paid" "6401" expense "Financial Expenses"
    ∷ defined "expense.bank_charges" "Bank Charges" "6402" expense "Financial Expenses"
    ∷ defined "expense.loan_processing" "Loan Processing Fee" "6403" expense "Financial Expenses"
    ∷ defined "expense.depreciation" "Depreciation" "6501" expense "Depreciation"
    ∷ defined "expense.amortization" "Amortization" "6502" expense "Depreciation"
    ∷ defined "expense.staff_welfare" "Staff Welfare" "6601" expense "Employee Benefits"
    ∷ defined "expense.insurance" "Insurance" "6602" expense "Employee Benefits"
    ∷ defined "expense.repairs" "Repairs & Maintenance" "6701" expense "Repairs & Maintenance"
    ∷ defined "expense.professional" "Professional Fees" "6801" expense "Professional Fees"
    ∷ defined "expense.legal" "Legal Fees" "6802" expense "Professional Fees"
    ∷ defined "expense.audit" "Audit & Accounting Fees" "6803" expense "Professional Fees"
    ∷ defined "round_off" "Round Off Account" "6901" expense "Miscellaneous"
    ∷ defined "expense.misc" "Miscellaneous Expense" "6999" expense "Miscellaneous"
    ∷ []

-- `_STANDARD_ACCOUNTS.get(key)`
unfoldable pub definition_of : String → List Definition → Option Definition
definition_of key [] = none
definition_of key (d ∷ ds) = if str_eq d.key key then some d else definition_of key ds
